-- ===== src/Config/Save/Reload.antt =====
-- What a load of the file gives back after the setters of config.cpp have written it.
use horizon_oc.Prelude.{
  false, [], ◌∷◌, ◌==◌, if◌then◌else◌, ℕ, ◌^◌, ◌<◌, ◌≡◌, refl, ap, ◌∙◌, ◌≢◌, Bool, true, Option,
  none, some, List,
}
use horizon_oc.Prelude.Text.{codes, to_string}
use horizon_oc.Config.Keys.{format_config_value}
use horizon_oc.Config.Values.{ConfigValue, valid_config_value, default_config_value, value_rank}
use horizon_oc.Config.Store.{Config}
use horizon_oc.Config.Ini.{Entry, IniFile, PutSection, WritesSection}
use horizon_oc.Config.Load.{config_val_section, write_value, checked_value, load}
use horizon_oc.Config.Load.Values.{Values, value_fold}
use horizon_oc.Config.Save.{set_config_value, on_write}
use horizon_oc.Config.Save.Values.{line_entry, load-written, line_step}

-- What holds of every file that the write can give holds of a setter that succeeds.
pub on_write_rule :
    (P : IniFile → Config → Type 0) (o : Option IniFile) (f : IniFile) (c d : Config)
    → (on_write o f c d).2 ≡ true
    → ((f' : IniFile) → o ≡ some f' → P f' d)
    → P (on_write o f c d).0 (on_write o f c d).1
on_write_rule P none f c d ok h = cc
on_write_rule P (some f') f c d ok h = h f' refl

guarded_rule :
    (P : IniFile → Config → Type 0) (b : Bool) (o : Option IniFile) (f : IniFile) (c d : Config)
    → let r = if b then on_write o f c d else (f, c, false) in
      r.2 ≡ true → (b ≡ true → (f' : IniFile) → o ≡ some f' → P f' d) → P r.0 r.1
guarded_rule P true o f c d ok h = on_write_rule P o f c d ok (h refl)
guarded_rule P false o f c d ok h = cc

-- A section of one valid line leaves the defaults but for that line.
one_line :
    (k : ConfigValue) (n : ℕ) (j : ConfigValue)
    → n < 2 ^ 64
    → valid_config_value k n ≡ true
    → value_fold default_config_value (line_entry (λ _. n) k ∷ []) j
      ≡ (if value_rank k == value_rank j then n else default_config_value j)
unfolding value_fold checked_value
one_line k n j small valid = rw (line_step (λ _. n) default_config_value k small, valid)

-- `SetConfigValue` writes a section of one line over all the others: after it succeeds on a 64-bit
-- value, over a readable file, a load gives that value, and the default of every other value,
-- whatever was stored before.
pub set_config_value-forgets :
    (put_section : PutSection) (w : WritesSection put_section) (k : ConfigValue) (n : ℕ)
    (immediate : Bool) (f : IniFile) (old : List Entry) (c c' : Config) (j : ConfigValue)
    → n < 2 ^ 64
    → f.entries ≡ some old
    → let (f', d, ok) = set_config_value put_section k n immediate f c in
      ok ≡ true
      → f'.mtime ≢ 0
      → (load f' c').values j ≡ (if value_rank k == value_rank j then n else default_config_value j)
unfolding set_config_value
set_config_value-forgets put_section w k n immediate f old c c' j small e ok =
    guarded_rule
      (λ f' d.
        f'.mtime ≢ 0
        → (load f' c').values j
          ≡ (if value_rank k == value_rank j then n else default_config_value j))
      (valid_config_value k n)
      (put_section config_val_section ((codes (format_config_value k), to_string n) ∷ []) f) f c
      (if immediate then record c { values = write_value c.values k n } else c) ok
      λ valid f' put nz.
        ap (λ (g : Values). g j)
          (load-written put_section w ((codes (format_config_value k), to_string n) ∷ []) f f' old
            c' e put nz)
        ∙ one_line k n j small valid

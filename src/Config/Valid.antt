-- ===== src/Config/Valid.antt =====
-- The values in memory are valid, whatever the file holds.
use horizon_oc.Prelude.{
  if◌then◌else◌, refl, false, not, ◌||◌, Bool, Option, none, some, ◌==◌, ==_iff, Bool-cases,
  Option-cases, keep, inl, inr, List, [], ◌∷◌, arith, ℕ, ◌≡◌, true,
}
use horizon_oc.Prelude.Text.{strtoul}
use horizon_oc.Config.Values.{
  ConfigValue, valid_config_value, default_config_value, value_rank, all_values,
}
use horizon_oc.Config.Load.{
  config_val_section, write_value, checked_value, browse, load, refresh, find_value,
}
use horizon_oc.Config.Save.{
  Profiles, set_profiles, on_write, set_config_values, set_config_value, reset_config_value,
}
use horizon_oc.Config.Store.{set_enabled, set_override_hz, Config, initialize, close}
use horizon_oc.Board.Types.{Module}
use horizon_oc.Config.Ini.{Entry, IniFile, PutSection, in_section}
use horizon_oc.Config.Load.Values.{value_rank_injective, value_step, value_fold, browse-values}

-- Every value is one that `hocclkValidConfigValue` accepts.
abbrev pub AllValid : (ConfigValue → ℕ) → Type 0
AllValid v = (k : ConfigValue) → valid_config_value k (v k) ≡ true

default-valid : AllValid default_config_value
unfolding valid_config_value default_config_value
default-valid k = ground arith

checked_value-valid : (k : ConfigValue) (n : ℕ) → valid_config_value k (checked_value k n) ≡ true
unfolding checked_value
checked_value-valid k n = elim (Bool-cases (valid_config_value k n)) [
  | inl e ↦ rw e e
  | inr e ↦ rw e (default-valid k)
]

write_value-valid :
    (v : ConfigValue → ℕ) (k : ConfigValue) (n : ℕ)
    → AllValid v
    → valid_config_value k n ≡ true
    → AllValid (write_value v k n)
write_value-valid v k n h e j = elim (Bool-cases (value_rank k == value_rank j)) [
  | inl same ↦ let eq : k ≡ j = value_rank_injective k j ((==_iff _ _).0 same) in rw (same, ← eq) e
  | inr other ↦ rw other (h j)
]

value_step-valid : (v : ConfigValue → ℕ) (e : Entry) → AllValid v → AllValid (value_step v e)
unfolding value_step
value_step-valid v e h j = elim (Option-cases (find_value e.key all_values)) [
  | inl none_found ↦ rw (value_step, none_found) (h j)
  | inr (k, found) ↦
      rw (value_step, found)
        (write_value-valid v k _ h (checked_value-valid k (strtoul e.value 0)) j)
]

value_fold-valid : (v : ConfigValue → ℕ) (es : List Entry) → AllValid v → AllValid (value_fold v es)
unfolding value_fold
value_fold-valid v [] h = h
value_fold-valid v (e ∷ es) h = value_fold-valid (value_step v e) es (value_step-valid v e h)

browse-valid : (c : Config) (es : List Entry) → AllValid c.values → AllValid (browse c es).values
browse-valid c es h k =
    rw (browse-values c es)
      (value_fold-valid c.values (keep (in_section config_val_section) es) h k)

load-valid : (f : IniFile) (c : Config) → AllValid (load f c).values
unfolding load close
load-valid f c k = elim (Bool-cases (f.mtime == 0)) [
  | inl e ↦ rw e (default-valid k)
  | inr e ↦ rw e (elim (Option-cases f.entries) [
    | inl n ↦ rw n (default-valid k)
    | inr (es, s) ↦ rw s (browse-valid _ es default-valid k)
  ])
]

on_write-valid :
    (o : Option IniFile) (f : IniFile) (c c' : Config)
    → AllValid c.values
    → AllValid c'.values
    → AllValid (on_write o f c c').1.values
on_write-valid none f c c' h h' = h
on_write-valid (some f') f c c' h h' = h'

-- What the process does to its configuration, with any files and any way of writing them.
pub data Reachable : Config → Type 0 where
  start : Reachable initialize
  loaded_from : (f : IniFile) (c : Config) → Reachable c → Reachable (load f c)
  refreshed : (f : IniFile) (c : Config) → Reachable c → Reachable (refresh f c).0
  closed : (c : Config) → Reachable c → Reachable (close c)
  values_set :
      (put_section : PutSection) (v : ConfigValue → ℕ) (now : Bool) (f : IniFile) (c : Config)
      → Reachable c
      → Reachable (set_config_values put_section v now f c).1
  value_set :
      (put_section : PutSection) (k : ConfigValue) (n : ℕ) (now : Bool) (f : IniFile) (c : Config)
      → Reachable c
      → Reachable (set_config_value put_section k n now f c).1
  value_reset :
      (put_section : PutSection) (k : ConfigValue) (f : IniFile) (c : Config)
      → Reachable c
      → Reachable (reset_config_value put_section k f c).1
  profiles_set :
      (put_section : PutSection) (tid : ℕ) (p : Profiles) (now : Bool) (f : IniFile) (c : Config)
      → Reachable c
      → Reachable (set_profiles put_section tid p now f c).1
  enabled_set : (b : Bool) (c : Config) → Reachable c → Reachable (set_enabled c b)
  override_set :
      (m : Module) (hz : ℕ) (c : Config) → Reachable c → Reachable (set_override_hz c m hz)

refresh-valid : (f : IniFile) (c : Config) → AllValid c.values → AllValid (refresh f c).0.values
unfolding refresh
refresh-valid f c h k = elim (Bool-cases (not c.loaded || not (c.mtime == f.mtime))) [
  | inl e ↦ rw e (load-valid f c k)
  | inr e ↦ rw e (h k)
]

if-valid :
    (b : Bool) (c : Config) (v : ConfigValue → ℕ)
    → AllValid c.values
    → AllValid v
    → AllValid (if b then record c { values = v } else c).values
if-valid true c v h h' = h'
if-valid false c v h h' = h

keeps-valid :
    (b : Bool) (c c' : Config)
    → AllValid c.values
    → c'.values ≡ c.values
    → AllValid (if b then c' else c).values
keeps-valid true c c' h e k = rw e (h k)
keeps-valid false c c' h e k = h k

set_config_value-valid :
    (put_section : PutSection) (k : ConfigValue) (n : ℕ) (now : Bool) (f : IniFile) (c : Config)
    → AllValid c.values
    → AllValid (set_config_value put_section k n now f c).1.values
unfolding set_config_value
set_config_value-valid put_section k n now f c h = elim (Bool-cases (valid_config_value k n)) [
  | inl e ↦ rw e (
      on_write-valid _ f c _ h
        (if-valid now c (write_value c.values k n) h (write_value-valid c.values k n h e)))
  | inr e ↦ rw e h
]

-- Whatever the process does and whatever its file holds, each configuration value in memory stays
-- one that `hocclkValidConfigValue` accepts.
pub Reachable-valid : (c : Config) → Reachable c → AllValid c.values
unfolding initialize close refresh set_enabled set_override_hz set_config_values set_config_value
    reset_config_value set_profiles
Reachable-valid c start = default-valid
Reachable-valid c (loaded_from f d r) = load-valid f d
Reachable-valid c (refreshed f d r) = refresh-valid f d (Reachable-valid d r)
Reachable-valid c (closed d r) = default-valid
Reachable-valid c (values_set ps v now f d r) =
    let h = Reachable-valid d r in
    on_write-valid _ f d _ h
      (if-valid now d (λ k. checked_value k (v k)) h (λ k. checked_value-valid k (v k)))
Reachable-valid c (value_set ps k n now f d r) =
    set_config_value-valid ps k n now f d (Reachable-valid d r)
Reachable-valid c (value_reset ps k f d r) =
    let h = Reachable-valid d r in
    on_write-valid _ f d _ h (write_value-valid d.values k _ h (default-valid k))
Reachable-valid c (profiles_set ps tid p now f d r) =
    let h = Reachable-valid d r in on_write-valid _ f d _ h (keeps-valid now d _ h refl)
Reachable-valid c (enabled_set b d r) = Reachable-valid d r
Reachable-valid c (override_set m hz d r) = Reachable-valid d r

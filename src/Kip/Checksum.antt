-- ===== src/Kip/Checksum.antt =====
-- The checksum by which `GetKipData` knows that the file has been replaced.
use horizon_oc.Prelude.{
  arith, refl, ap, ◌∙◌, Option, none, ℕ, ◌^◌, ◌<◌, ◌≡◌, ◌≢◌, true, false, some, List,
}
use horizon_oc.Config.Values.{ConfigValue, kip_crc32, valid_config_value}
use horizon_oc.Config.Store.{Config}
use horizon_oc.Config.Ini.{Entry, IniFile, PutSection, WritesSection}
use horizon_oc.Config.Load.{load, checked_value, config_val_section}
use horizon_oc.Config.Save.{set_config_values, on_write, value_lines}
use horizon_oc.Config.Save.Reload.{on_write_rule}
use horizon_oc.Config.Save.Values.{load-written, fold-target, target}
use horizon_oc.ClockManager.State.{Sys, Cmd}
use horizon_oc.Kip.{KipFile, set_kip_data, wrote, saved_sums}

-- What `SetConfigValues` keeps of a value, in the file and through a load of it.
saved_value :
    (put_section : PutSection) (w : WritesSection put_section) (v : ConfigValue → ℕ) (f : IniFile)
    (old : List Entry) (c c' : Config) (k : ConfigValue)
    → ((j : ConfigValue) → v j < 2 ^ 64)
    → f.entries ≡ some old
    → let r = set_config_values put_section v false f c in
      r.2 ≡ true → r.0.mtime ≢ 0 → (load r.0 c').values k ≡ target v k
unfolding set_config_values value_lines
saved_value put_section w v f old c c' k small e ok nz =
    on_write_rule (λ f' d. f'.mtime ≢ 0 → (load f' c').values k ≡ target v k)
      (put_section config_val_section (value_lines v) f) f c c ok
      (λ f' put there.
        ap (λ (g : ConfigValue → ℕ). g k)
          (load-written put_section w (value_lines v) f f' old c' e put there)
        ∙ fold-target v k small)
      nz

write_ok :
    (o : Option IniFile) (f f' : IniFile) (c d : Config)
    → o ≡ some f'
    → ((on_write o f c d).2 ≡ true) × ((on_write o f c d).0 ≡ f')
write_ok none f f' c d e = cc
write_ok (some g) f f' c d e = (refl, cc)

sums-small :
    (kip : KipFile) (s : Sys) (j : ConfigValue)
    → s.config.values j < 2 ^ 64
    → kip.checksum (wrote kip s).log < 2 ^ 32
    → saved_sums kip s j < 2 ^ 64
unfolding saved_sums
sums-small kip s j small word = ground arith

sums-target :
    (kip : KipFile) (s : Sys) → target (saved_sums kip s) kip_crc32 ≡ kip.checksum (wrote kip s).log
unfolding saved_sums checked_value valid_config_value
sums-target kip s = refl

saved_sum :
    (put_section : PutSection) (w : WritesSection put_section) (v : ConfigValue → ℕ)
    (f f' : IniFile) (old : List Entry) (c c' : Config) (k : ConfigValue)
    → ((j : ConfigValue) → v j < 2 ^ 64)
    → f.entries ≡ some old
    → put_section config_val_section (value_lines v) f ≡ some f'
    → f'.mtime ≢ 0
    → (load (set_config_values put_section v false f c).0 c').values k ≡ target v k
unfolding set_config_values
saved_sum put_section w v f f' old c c' k small e put nz =
    let (ok, same) = write_ok (put_section config_val_section (value_lines v) f) f f' c c put in
    saved_value put_section w v f old c c' k small e ok (rw same nz)

-- With values of 64 bits and checksums of 32 bits, after `SetKipData` over a file that opens and
-- reads: if the configuration file could be read and its section has been written, with a time of
-- change other than 0, then a load of it gives the checksum that the loader's file now has, so the
-- next `GetKipData` does not take that file for a new one.
pub set_kip_data-checksum :
    (put_section : PutSection) (w : WritesSection put_section) (kip : KipFile) (f f' : IniFile)
    (s : Sys) (old : List Entry) (c' : Config)
    → kip.opens ≡ true
    → kip.reads ≡ true
    → ((j : ConfigValue) → s.config.values j < 2 ^ 64)
    → ((log : List Cmd) → kip.checksum log < 2 ^ 32)
    → f.entries ≡ some old
    → put_section config_val_section (value_lines (saved_sums kip s)) f ≡ some f'
    → f'.mtime ≢ 0
    → let (f'', t) = set_kip_data put_section kip f s in
      (load f'' c').values kip_crc32 ≡ kip.checksum t.log
unfolding set_kip_data
set_kip_data-checksum put_section w kip f f' s old c' opens reads small word e put nz =
    rw (opens, reads)
      (saved_sum put_section w (saved_sums kip s) f f' old s.config c' kip_crc32
          (λ j. sums-small kip s j (small j) (word (wrote kip s).log)) e put nz
        ∙ sums-target kip s)

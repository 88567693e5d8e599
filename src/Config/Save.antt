-- ===== src/Config/Save.antt =====
-- The setters of config.cpp that write config.ini. `ini_putsection` is a parameter.
pub mod Values
pub mod Reload
pub mod Profiles
use horizon_oc.Prelude.{
  truthy, length, u8, Option, ◌++◌, ◌==◌, if◌then◌else◌, keep, ℕ, Bool, true, false, not, ◌||◌,
  none, some, List, [], ◌∷◌, map,
}
use horizon_oc.Prelude.Text.{Text, codes, to_string, format_tid}
use horizon_oc.Board.Types.{Profile, Module, all_profiles, all_modules}
use horizon_oc.Board.Names.{format_profile, format_module}
use horizon_oc.Config.Values.{ConfigValue, all_values, valid_config_value, default_config_value}
use horizon_oc.Config.Keys.{format_config_value}
use horizon_oc.Config.Store.{Config, write_mhz, write_count}
use horizon_oc.Config.Ini.{IniFile, PutSection}
use horizon_oc.Config.Load.{config_val_section, checked_value, write_value}

-- `SetConfigValues` writes what is valid and not the default.
unfoldable pub is_saved : (ConfigValue → ℕ) → ConfigValue → Bool
is_saved values k =
    not (not (valid_config_value k (values k)) || values k == default_config_value k)

abbrev pub value_line : (ConfigValue → ℕ) → ConfigValue → Text × Text
value_line values k = (codes (format_config_value k), to_string (values k))

unfoldable pub value_lines : (ConfigValue → ℕ) → List (Text × Text)
value_lines values = map (value_line values) (keep (is_saved values) all_values)

-- A failed write changes nothing; the result says whether it succeeded.
abbrev pub on_write : Option IniFile → IniFile → Config → Config → IniFile × Config × Bool
on_write none f c c' = (f, c, false)
on_write (some f') f c c' = (f', c', true)

unfoldable pub set_config_values :
    PutSection → (ConfigValue → ℕ) → Bool → IniFile → Config → IniFile × Config × Bool
set_config_values put_section values immediate f c =
    on_write (put_section config_val_section (value_lines values) f) f c
      (if immediate then record c { values = λ k. checked_value k (values k) } else c)

unfoldable pub set_config_value :
    PutSection → ConfigValue → ℕ → Bool → IniFile → Config → IniFile × Config × Bool
set_config_value put_section k v immediate f c =
    let line = codes (format_config_value k) in
    if valid_config_value k v
    then on_write (put_section config_val_section ((line, to_string v) ∷ []) f) f c
        (if immediate then record c { values = write_value c.values k v } else c)
    else (f, c, false)

unfoldable pub reset_config_value :
    PutSection → ConfigValue → IniFile → Config → IniFile × Config × Bool
reset_config_value put_section k f c =
    on_write (put_section config_val_section ((codes (format_config_value k), []) ∷ []) f) f c
      (record c { values = write_value c.values k (default_config_value k) })

-- `profiles->mhzMap[profile][module]` is a function here.
abbrev pub Profiles : Type 0
Profiles = Profile → Module → ℕ

abbrev profile_line : Profiles → Profile → Module → Text × Text
profile_line mhz p m = (format_profile p ++ b'_' ∷ format_module m, to_string (mhz p m))

unfoldable pub module_lines : Profiles → Profile → List Module → List (Text × Text)
module_lines mhz p [] = []
module_lines mhz p (m ∷ ms) =
    let rest = module_lines mhz p ms in
    if truthy (mhz p m) then profile_line mhz p m ∷ rest else rest

unfoldable pub profile_lines : Profiles → List Profile → List (Text × Text)
unfolding module_lines
profile_lines mhz [] = []
profile_lines mhz (p ∷ ps) = module_lines mhz p all_modules ++ profile_lines mhz ps

-- The update of the map for one clock: an assignment, or an `erase` where it is 0.
abbrev pub or_erase : ℕ → Option ℕ
or_erase mhz = if truthy mhz then some mhz else none

unfoldable pub write_modules :
    Profiles
    → ℕ
    → Profile
    → List Module
    → (ℕ → Profile → Module → Option ℕ)
    → ℕ
    → Profile
    → Module
    → Option ℕ
write_modules mhz tid p [] map = map
write_modules mhz tid p (m ∷ ms) map =
    write_modules mhz tid p ms (write_mhz map tid p m (or_erase (mhz p m)))

unfoldable pub write_profiles :
    Profiles
    → ℕ
    → List Profile
    → (ℕ → Profile → Module → Option ℕ)
    → ℕ
    → Profile
    → Module
    → Option ℕ
unfolding write_modules
write_profiles mhz tid [] map = map
write_profiles mhz tid (p ∷ ps) map =
    write_profiles mhz tid ps (write_modules mhz tid p all_modules map)

-- `SetProfiles`. The count is a u8, and at most 25.
unfoldable pub set_profiles :
    PutSection → ℕ → Profiles → Bool → IniFile → Config → IniFile × Config × Bool
unfolding profile_lines write_profiles
set_profiles put_section tid mhz immediate f c =
    let lines = profile_lines mhz all_profiles in
    on_write (put_section (format_tid tid) lines f) f c (
      if immediate
      then record c {
        profile_count = write_count c.profile_count tid (u8 (length lines));
        profile_mhz = write_profiles mhz tid all_profiles c.profile_mhz;
      }
      else c)

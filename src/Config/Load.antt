-- ===== src/Config/Load.antt =====
-- `BrowseIniFunc`, `Load` and `Refresh` of config.cpp.
pub mod Keys
pub mod Values
use horizon_oc.Prelude.{
  ◌==◌, if◌then◌else◌, length, u8, u32, ℕ, ◌+◌, Bool, true, false, not, ◌&&◌, ◌||◌, Option, none,
  some, List, [], ◌∷◌,
}
use horizon_oc.Prelude.Text.{Text, codes, text_eq, strip_prefix, strtoul}
use horizon_oc.Board.Types.{Profile, Module, all_profiles, all_modules}
use horizon_oc.Board.Names.{format_profile, format_module}
use horizon_oc.Config.Values.{
  ConfigValue, all_values, valid_config_value, default_config_value, value_rank,
}
use horizon_oc.Config.Keys.{format_config_value}
use horizon_oc.Config.Store.{Config, close, write_mhz, write_count}
use horizon_oc.Config.Ini.{Entry, IniFile}

-- CONFIG_VAL_SECTION of config.hpp.
abbrev pub config_val_section : Text
config_val_section = codes "values"

-- The first value whose key is the given one.
unfoldable pub find_value : Text → List ConfigValue → Option ConfigValue
find_value key [] = none
find_value key (k ∷ ks) =
    let rest = find_value key ks in
    if text_eq key (codes (format_config_value k)) then some k else rest

-- `configValues[kval] = v`.
abbrev pub write_value : (ConfigValue → ℕ) → ConfigValue → ℕ → ConfigValue → ℕ
write_value values k v = λ k'. if value_rank k == value_rank k' then v else values k'

-- An input that is not valid becomes the default.
unfoldable pub checked_value : ConfigValue → ℕ → ℕ
checked_value k input = if valid_config_value k input then input else default_config_value k

-- The branch for the section of the values; an unknown key is skipped.
unfoldable pub browse_value : Config → Text → Text → Config
unfolding checked_value
browse_value c key value = elim (find_value key all_values) [
  | none ↦ c
  | some k ↦ record c { values = write_value c.values k (checked_value k (strtoul value 0)) }
]

-- `!strncmp(key, profileCode, profileCodeLen) && key[profileCodeLen] == '_'` and the test of
-- the rest of the key.
names_rest : Module → Option Text → Bool
names_rest m none = false
names_rest m (some []) = false
names_rest m (some (c ∷ rest)) = c == b'_' && text_eq rest (format_module m)

unfoldable pub names_clock : Text → Profile → Module → Bool
unfolding names_rest
names_clock key p m = names_rest m (strip_prefix (format_profile p) key)

-- The two nested loops; the last match stays.
unfoldable pub parse_modules :
    Text → Profile → List Module → Option (Profile × Module) → Option (Profile × Module)
parse_modules key p [] found = found
parse_modules key p (m ∷ ms) found =
    parse_modules key p ms (if names_clock key p m then some (p, m) else found)

unfoldable pub parse_profiles :
    Text → List Profile → Option (Profile × Module) → Option (Profile × Module)
parse_profiles key [] found = found
parse_profiles key (p ∷ ps) found = parse_profiles key ps (parse_modules key p all_modules found)

unfoldable pub parse_key : Text → Option (Profile × Module)
unfolding parse_profiles parse_modules names_clock
parse_key key = parse_profiles key all_profiles none

abbrev pub bump_count : Option ℕ → ℕ
bump_count none = 1
bump_count (some n) = u8 (n + 1)

-- The branch for the section of a title. A value of 0 is skipped.
unfoldable pub browse_title : Config → ℕ → Text → Text → Config
browse_title c tid key value = elim (parse_key key) [
  | none ↦ c
  | some (p, m) ↦
      let mhz = u32 (strtoul value 10) in
      if mhz == 0 then c else record c {
        profile_mhz = write_mhz c.profile_mhz tid p m (some mhz);
        profile_count = write_count c.profile_count tid (bump_count (c.profile_count tid));
      }
]

-- `BrowseIniFunc`; it always asks for the next entry.
unfoldable pub browse_entry : Config → Entry → Config
browse_entry c e =
    let tid = strtoul e.section 16 in
    if text_eq e.section config_val_section
    then browse_value c e.key e.value
    else if tid == 0 || not (length e.section == 16)
    then c
    else browse_title c tid e.key e.value

unfoldable pub browse : Config → List Entry → Config
browse c [] = c
browse c (e ∷ es) = browse (browse_entry c e) es

abbrev browse_file : Config → Option (List Entry) → Config
browse_file c none = c
browse_file c (some es) = browse c es

-- A file whose time of change reads 0 counts as missing.
unfoldable pub load : IniFile → Config → Config
load f c =
    let a = record (close c) { mtime = f.mtime } in
    let b = if f.mtime == 0 then a else browse_file a f.entries in record b { loaded = true }

unfoldable pub refresh : IniFile → Config → Config × Bool
refresh f c = if not c.loaded || not (c.mtime == f.mtime) then (load f c, true) else (c, false)

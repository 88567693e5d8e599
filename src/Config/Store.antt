-- ===== src/Config/Store.antt =====
-- hoc-clk/sysmodule/src/config.cpp: the state of the namespace `config`, its look-ups and the
-- setters that touch no file. The two `std::map`s are functions to `Option`.
pub mod Fallback
use horizon_oc.Prelude.{
  ℕ, ◌*◌, Bool, false, ◌&&◌, Option, none, some, List, [], ◌∷◌, ◌==◌, if◌then◌else◌, max, u32,
}
use horizon_oc.Board.Types.{
  Profile, handheld, handheld_charging, handheld_charging_usb, handheld_charging_official, docked,
  Module, PerModule, profile_eq, module_eq, at, put, fill,
}
use horizon_oc.Config.Values.{ConfigValue, default_config_value}

pub record Config : Type 0 where
  pub values : ConfigValue → ℕ  -- configValues, each a u64
  pub loaded : Bool  -- gLoaded
  pub mtime : ℕ  -- gMtime
  pub enabled : Bool  -- gEnabled
  pub overrides : PerModule ℕ  -- gOverrideFreqs
  pub profile_mhz : ℕ → Profile → Module → Option ℕ  -- gProfileMHzMap
  pub profile_count : ℕ → Option ℕ  -- gProfileCountMap, each a u8

unfoldable pub initialize : Config
initialize = record {
  values = default_config_value;
  loaded = false;
  mtime = 0;
  enabled = false;
  overrides = fill 0;
  profile_mhz = λ t p m. none;
  profile_count = λ t. none;
}

-- `Close`: what it does not name stays.
unfoldable pub close : Config → Config
close c = record c {
  loaded = false;
  profile_mhz = λ t p m. none;
  profile_count = λ t. none;
  values = default_config_value;
}

-- `map[(tid, profile, module)] = mhz` and `map.erase(...)`, by `some` and `none`.
abbrev pub write_mhz :
    (ℕ → Profile → Module → Option ℕ)
    → ℕ
    → Profile
    → Module
    → Option ℕ
    → ℕ
    → Profile
    → Module
    → Option ℕ
write_mhz m t p mo v =
    λ t' p' mo'. if t == t' && (profile_eq p p' && module_eq mo mo') then v else m t' p' mo'

abbrev pub write_count : (ℕ → Option ℕ) → ℕ → ℕ → ℕ → Option ℕ
write_count m t v = λ t'. if t == t' then some v else m t'

abbrev pub or_zero : Option ℕ → ℕ
or_zero none = 0
or_zero (some v) = v

unfoldable pub find_clock_mhz : Config → ℕ → Module → Profile → ℕ
find_clock_mhz c tid m p = if c.loaded then or_zero (c.profile_mhz tid p m) else 0

-- The loop over `profiles`, which stops at the first value that is not 0.
unfoldable pub first_mhz : Config → ℕ → Module → List Profile → ℕ
unfolding find_clock_mhz
first_mhz c tid m [] = 0
first_mhz c tid m (p ∷ ps) =
    let rest = first_mhz c tid m ps in
    let mhz = find_clock_mhz c tid m p in if mhz == 0 then rest else mhz

-- `mhz * mhzMultiplier` is a product of `u32`s.
unfoldable pub find_clock_hz_from_profiles : Config → ℕ → Module → List Profile → ℕ → ℕ
unfolding first_mhz
find_clock_hz_from_profiles c tid m ps multiplier =
    max 0 (u32 ((if c.loaded then first_mhz c tid m ps else 0) * multiplier))

-- The list that each case of the `switch` in `GetAutoClockHz` passes on.
unfoldable pub fallbacks : Profile → List Profile
fallbacks handheld = handheld ∷ []
fallbacks handheld_charging = handheld_charging_usb ∷ handheld_charging ∷ handheld ∷ []
fallbacks handheld_charging_usb = handheld_charging_usb ∷ handheld_charging ∷ handheld ∷ []
fallbacks handheld_charging_official =
    handheld_charging_official ∷ handheld_charging ∷ handheld ∷ []
fallbacks docked = docked ∷ []

unfoldable pub get_auto_clock_hz : Config → ℕ → Module → Profile → Bool → ℕ
unfolding find_clock_hz_from_profiles fallbacks
get_auto_clock_hz c tid m p return_raw =
    find_clock_hz_from_profiles c tid m (fallbacks p) (if return_raw then 1 else 1000000)

unfoldable pub get_profiles : Config → ℕ → Profile → Module → ℕ
unfolding find_clock_mhz
get_profiles c tid p m = find_clock_mhz c tid m p

unfoldable pub get_profile_count : Config → ℕ → ℕ
get_profile_count c tid = or_zero (c.profile_count tid)

unfoldable pub set_enabled : Config → Bool → Config
set_enabled c b = record c { enabled = b }

unfoldable pub set_override_hz : Config → Module → ℕ → Config
set_override_hz c m hz = record c { overrides = put c.overrides m hz }

unfoldable pub get_override_hz : Config → Module → ℕ
get_override_hz c m = at c.overrides m

unfoldable pub has_profiles_loaded : Config → Bool
has_profiles_loaded c = c.loaded

-- ===== src/Tests/Store.antt =====
-- Examples for the configuration.
use horizon_oc.Prelude.{ℕ, ◌*◌, ◌%◌, ◌^◌, ◌≡◌, refl, ◌≢◌, true, false, some}
use horizon_oc.Tests.World.{loaded, empty_file, put_last}
use horizon_oc.Board.Types.{docked, gpu}
use horizon_oc.Config.Values.{ConfigValue, uncapped_clocks, dvfs_mode, thermal_throttle_threshold}
use horizon_oc.Config.Store.{Config, initialize, get_profiles, get_auto_clock_hz}
use horizon_oc.Config.Store.Fallback.{FirstOf, order, get_auto_clock_hz-FirstOf}
use horizon_oc.Config.Load.{load}
use horizon_oc.Config.Save.{Profiles, set_profiles, set_config_value}
use horizon_oc.Config.Save.Profiles.{set_profiles-get_profiles}
use horizon_oc.Config.Valid.{start, loaded_from, value_set, AllValid, Reachable-valid}

abbrev chosen : ConfigValue → ℕ
chosen k = elim k [ uncapped_clocks ↦ 1 | thermal_throttle_threshold ↦ 0 | _ ↦ 2 ]

abbrev clocks : Profiles
clocks p m = elim m [ gpu ↦ 768 | _ ↦ 0 ]

set_profiles-get_profiles_example :
    let d = (set_profiles put_last 42 clocks true empty_file loaded).1 in
    (get_profiles d 42 docked gpu ≡ 768)
    × (◌≢◌ {A = ℕ} 42 43 → get_profiles d 43 docked gpu ≡ get_profiles loaded 43 docked gpu)
unfolding set_profiles
set_profiles-get_profiles_example =
    set_profiles-get_profiles put_last 42 43 clocks empty_file loaded docked gpu refl refl

abbrev one_clock : Config
one_clock = record loaded { profile_mhz = λ t p m. some 768 }

get_auto_clock_hz-FirstOf_example :
    (mhz : ℕ) × FirstOf one_clock 42 gpu (order docked) mhz
    × (get_auto_clock_hz one_clock 42 gpu docked false ≡ (mhz * 1000000) % 2 ^ 32)
get_auto_clock_hz-FirstOf_example = get_auto_clock_hz-FirstOf one_clock 42 gpu docked false refl

abbrev changed : Config
changed = (set_config_value put_last dvfs_mode 1 true empty_file (load empty_file initialize)).1

Reachable-valid_example : AllValid changed.values
Reachable-valid_example = Reachable-valid changed (
    value_set put_last dvfs_mode 1 true empty_file (load empty_file initialize)
      (loaded_from empty_file initialize start))

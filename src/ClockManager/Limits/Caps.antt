-- ===== src/ClockManager/Limits/Caps.antt =====
-- The order of the caps of `GetMaxAllowedHz`.
use horizon_oc.Prelude.{ℕ, ◌<◌, ◌≡◌, arith}
use horizon_oc.Board.Types.{
  SocType, erista, mariko, handheld, handheld_charging, handheld_charging_usb,
  handheld_charging_official, docked, gpu,
}
use horizon_oc.Config.Values.{ConfigValue, uncapped_clocks}
use horizon_oc.ClockManager.Limits.{
  get_max_allowed_hz, capped_hz, gpu_battery_cap, gpu_charging_cap,
}

-- While clocks are capped, the GPU has a cap on the battery and a higher one on a charger that is
-- not official, the same for both kinds, and none on an official charger and in the dock.
pub get_max_allowed_hz-gpu :
    (soc : SocType) (values : ConfigValue → ℕ)
    → values uncapped_clocks ≡ 0
    → (0 < get_max_allowed_hz soc values gpu handheld)
      × (get_max_allowed_hz soc values gpu handheld
          < get_max_allowed_hz soc values gpu handheld_charging)
      × (get_max_allowed_hz soc values gpu handheld_charging_usb
          ≡ get_max_allowed_hz soc values gpu handheld_charging)
      × (get_max_allowed_hz soc values gpu handheld_charging_official ≡ 0)
      × (get_max_allowed_hz soc values gpu docked ≡ 0)
unfolding get_max_allowed_hz capped_hz gpu_battery_cap gpu_charging_cap
get_max_allowed_hz-gpu erista values capped = ground (arith, capped)
get_max_allowed_hz-gpu mariko values capped = ground (arith, capped)

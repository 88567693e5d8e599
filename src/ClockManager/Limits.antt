-- ===== src/ClockManager/Limits.antt =====
-- `IsAssignableHz` and `GetMaxAllowedHz` of clock_manager.cpp.
pub mod Caps
use horizon_oc.Prelude.{ℕ, Bool, true, false, ltb, leb, ◌==◌, ◌&&◌, if◌then◌else◌, truthy, u32_max}
use horizon_oc.Board.Types.{SocType, erista, mariko, Profile, Module, cpu, gpu, mem, profile_rank}
use horizon_oc.Config.Values.{ConfigValue, uncapped_clocks, mariko_gpu_uv}

unfoldable pub is_assignable_hz : Module → ℕ → Bool
is_assignable_hz cpu hz = leb 500000000 hz
is_assignable_hz mem hz = leb 665600000 hz
is_assignable_hz _ hz = true

-- The caps of the GPU without a charger, and with one that is not official.
unfoldable pub gpu_battery_cap : SocType → ℕ → ℕ
gpu_battery_cap erista uv = 460800000
gpu_battery_cap mariko uv =
    if uv == 0
    then 614400000
    else if uv == 1
    then 691200000
    else if uv == 2
    then 768000000
    else 614400000

gpu_charging_cap : SocType → ℕ → ℕ
gpu_charging_cap erista uv = 768000000
gpu_charging_cap mariko uv =
    if uv == 0
    then 844800000
    else if uv == 1
    then 921600000
    else if uv == 2
    then 998400000
    else 844800000

abbrev pub is_erista : SocType → Bool
is_erista erista = true
is_erista mariko = false

-- The branches for one module, once clocks are capped.
unfoldable pub capped_hz : SocType → ℕ → Module → Profile → ℕ
unfolding gpu_battery_cap gpu_charging_cap
capped_hz soc uv gpu p =
    if ltb (profile_rank p) 1
    then gpu_battery_cap soc uv
    else if leb (profile_rank p) 2
    then gpu_charging_cap soc uv
    else 0
capped_hz soc uv cpu p = if ltb (profile_rank p) 1 && is_erista soc then 1581000000 else u32_max
capped_hz soc uv _ p = 0

-- 0 is read as "no limit" by the callers, as `~0` is in effect.
unfoldable pub get_max_allowed_hz : SocType → (ConfigValue → ℕ) → Module → Profile → ℕ
unfolding capped_hz
get_max_allowed_hz soc values m p =
    if truthy (values uncapped_clocks) then u32_max else capped_hz soc (values mariko_gpu_uv) m p

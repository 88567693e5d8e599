-- ===== src/ClockManager/Resets.antt =====
-- Resets, safety features and miscellaneous features of clock_manager.cpp.
pub mod Tdp
use horizon_oc.Prelude.{
  ℕ, ◌+◌, ◌*◌, ◌/◌, Bool, true, false, not, ◌&&◌, ◌||◌, Option, some, ◌>>=◌, ltb, ◌==◌,
  if◌then◌else◌, truthy, u32, u32_max, ℤ, negsuc, signed32, lt_ℤ, neg_ℤ, div_ℤ,
}
use horizon_oc.Board.Types.{
  ConsoleType, hoag, docked, Module, cpu, gpu, mem, governor, display, gpu_volt, avg, profile_eq,
}
use horizon_oc.Board.Volt.{calculate_tbreak, get_minimum_gpu_vmin}
use horizon_oc.Config.Values.{
  live_cpu_uv, erista_cpu_uv, mariko_cpu_uv_low, mariko_cpu_uv_high, table_conf, handheld_tdp,
  lite_tdp_limit, handheld_tdp_limit, thermal_throttle, thermal_throttle_threshold,
  battery_charge_current, display_voltage, dvfs_mode, dvfs_offset, overwrite_refresh_rate,
  overwrite_boost_mode,
}
use horizon_oc.ClockManager.State.{
  Sys, Hw, set_hz, reset_to_stock_cpu, reset_to_stock_gpu, reset_to_stock_mem,
  reset_to_stock_display, set_dfll_tunings, pcv_hijack_gpu_volts, set_gpu_mv_out,
  set_display_mv_out, set_fast_charge_current_limit, issue, config_value,
}
use horizon_oc.ClockManager.Limits.{is_erista, get_max_allowed_hz}
use horizon_oc.ClockManager.Nearest.{get_nearest_hz}
use horizon_oc.Governor.Handle.{resolve_target}

abbrev pub is_hoag : ConsoleType → Bool
is_hoag hoag = true
is_hoag _ = false

-- `HandleCpuUv`; `ResetToStockClocks` and `HandleFreqReset` repeat its lines.
unfoldable pub handle_cpu_uv : Hw → Sys → Sys
handle_cpu_uv hw s =
    if is_erista hw.soc_type
    then issue s (set_dfll_tunings (config_value s erista_cpu_uv) 0 1581000000)
    else issue s (
        set_dfll_tunings (config_value s mariko_cpu_uv_low) (config_value s mariko_cpu_uv_high)
          (calculate_tbreak hw.soc_type (config_value s table_conf)))

unfoldable pub live_uv : Hw → Sys → Sys
unfolding handle_cpu_uv
live_uv hw s = if truthy (config_value s live_cpu_uv) then handle_cpu_uv hw s else s

unfoldable pub reset_to_stock_clocks : Hw → Sys → Sys
unfolding live_uv
reset_to_stock_clocks hw s = issue (live_uv hw (issue s reset_to_stock_cpu)) reset_to_stock_gpu

-- `-(int)config::GetConfigValue(k)`.
abbrev minus_int : ℕ → ℤ
minus_int v = neg_ℤ (signed32 (u32 v))

unfoldable pub tdp_limit : Hw → Sys → ℕ
tdp_limit hw s =
    if is_hoag hw.console_type
    then config_value s lite_tdp_limit
    else config_value s handheld_tdp_limit

-- The average power is negative while the battery drains.
unfoldable pub over_tdp : Hw → Sys → Bool
unfolding tdp_limit
over_tdp hw s =
    (truthy (config_value s handheld_tdp) && not (profile_eq s.context.profile docked))
    && lt_ℤ (hw.get_power_mw s.log avg) (minus_int (tdp_limit hw s))

unfoldable pub too_hot : Hw → Sys → Bool
too_hot hw s =
    lt_ℤ (signed32 (u32 (config_value s thermal_throttle_threshold)))
      (div_ℤ (hw.tmp451_temp_soc s.log) 1000)
    && truthy (config_value s thermal_throttle)

unfoldable pub handle_safety_features : Hw → Sys → Sys
handle_safety_features hw s =
    if over_tdp hw s
    then reset_to_stock_clocks hw s
    else if too_hot hw s
    then reset_to_stock_clocks hw s
    else s

unfoldable pub handle_misc_features : Sys → Sys
handle_misc_features s =
    let tick = u32 (s.misc_tick + 1) in
    let charged =
      if truthy (config_value s battery_charge_current)
      then issue s (set_fast_charge_current_limit (config_value s battery_charge_current))
      else s in
    if ltb 10 tick
    then issue (record charged { misc_tick = 0 })
        (set_display_mv_out (config_value s display_voltage))
    else record s { misc_tick = tick }

-- `DVFSMode_Hijack` on a Mariko console.
unfoldable pub hijacks : Hw → Sys → Bool
hijacks hw s = not (is_erista hw.soc_type) && config_value s dvfs_mode == 1

-- `board::SetHz(GPU, ~0)` and then either the stock clock or the nearest one.
unfoldable pub retune_gpu : ℕ → ℕ → Sys → Sys
retune_gpu target nearest s =
    let top = issue s (set_hz gpu u32_max) in
    if truthy target then issue top (set_hz gpu nearest) else issue top reset_to_stock_gpu

-- `dvfsOffset` is an `s32`; adding it to a `u32` wraps.
unfoldable pub dvfs_before_set : Hw → ℕ → Sys → Sys
dvfs_before_set hw target s =
    let vmin = u32 (
      get_minimum_gpu_vmin (target / 1000000) hw.gpu_speedo_bracket
      + u32 (config_value s dvfs_offset)) in
    let a = issue s (pcv_hijack_gpu_volts vmin) in
    let b = if ltb (hw.gpu_mv_out a.log) vmin then issue a (set_gpu_mv_out vmin) else a in
    let old = b.context.voltages in
    record b {
      context = record b.context {
        voltages = λ v. elim v [ gpu_volt ↦ u32 (vmin * 1000) | other ↦ old other ];
      };
    }

-- `std::max(dvfsOffset, -80)`, as a bit pattern.
unfoldable pub clamped_offset : ℕ → ℕ
clamped_offset v = if lt_ℤ (signed32 (u32 v)) (negsuc 79) then 4294967216 else u32 v

unfoldable pub after_vmin : Hw → ℕ → Sys → ℕ
unfolding clamped_offset
after_vmin hw target s =
    let vmin = get_minimum_gpu_vmin (target / 1000000) hw.gpu_speedo_bracket in
    if truthy vmin then u32 (vmin + clamped_offset (config_value s dvfs_offset)) else vmin

-- The nearest clock of the GPU under the cap of the current profile.
unfoldable pub nearest_gpu : Hw → ℕ → Sys → Option ℕ
nearest_gpu hw target s =
    get_nearest_hz s.tables.on_gpu target
      (get_max_allowed_hz hw.soc_type s.config.values gpu s.context.profile)

unfoldable pub dvfs_after_set : Hw → ℕ → Sys → Option Sys
unfolding after_vmin retune_gpu
dvfs_after_set hw target s = do
  nearest ← nearest_gpu hw target s
  some (retune_gpu target nearest (issue s (pcv_hijack_gpu_volts (after_vmin hw target s))))

unfoldable pub dvfs_reset : Hw → Sys → Option Sys
unfolding retune_gpu
dvfs_reset hw s =
    let target = resolve_target s gpu false in
    let reset = nearest_gpu hw target s >>= λ nearest.
    some (retune_gpu target nearest (issue s (pcv_hijack_gpu_volts 0))) in
    if hijacks hw s then reset else some s

unfoldable pub handle_freq_reset : Hw → Module → Bool → Sys → Option Sys
unfolding live_uv
handle_freq_reset hw cpu is_boost s = some (
    live_uv hw (
      if not (is_boost || (truthy (config_value s overwrite_boost_mode) && is_boost))
      then issue s reset_to_stock_cpu
      else s))
handle_freq_reset hw gpu is_boost s = some (issue s reset_to_stock_gpu)
handle_freq_reset hw mem is_boost s = dvfs_reset hw (issue s reset_to_stock_mem)
handle_freq_reset hw governor is_boost s = some s
handle_freq_reset hw display is_boost s =
    some
      (if truthy (config_value s overwrite_refresh_rate) then issue s reset_to_stock_display else s)

-- ===== src/ClockManager/Context.antt =====
-- `RefreshContext` of clock_manager.cpp, in the order in which it runs.
pub mod Agrees
use horizon_oc.Prelude.{
  ltb, ◌==◌, if◌then◌else◌, truthy, u64, u32_max, ℕ, ◌+◌, ◌-◌, ◌*◌, ◌%◌, ◌^◌, Bool, true, false,
  not, ◌&&◌, ◌||◌, List, [], ◌∷◌,
}
use horizon_oc.Board.Types.{Module, gpu, mem, display, docked, all_modules, at, put, profile_eq}
use horizon_oc.Config.Values.{
  polling_interval_ms, temp_log_interval_ms, power_log_interval_ms, freq_log_interval_ms,
  csv_write_interval_ms,
}
use horizon_oc.Config.Store.{get_override_hz}
use horizon_oc.ClockManager.State.{
  Sys, Hw, set_hz, reset_to_stock, reset_to_stock_gpu, pcv_hijack_gpu_volts, sleep_thread,
  write_context_to_csv, set_display_refresh_docked_state, issue, config_value,
}
use horizon_oc.ClockManager.Resets.{hijacks, is_hoag}

-- `WaitForNextTick`: five seconds where the memory clock shows that the console sleeps.
unfoldable pub wait_for_next_tick : Hw → Sys → Sys
wait_for_next_tick hw s =
    if ltb 665000000 (hw.get_hz s.log mem)
    then issue s (sleep_thread (u64 (config_value s polling_interval_ms * 1000000)))
    else issue s (sleep_thread 5000000000)

-- `ConfigIntervalTimeout`: whether to log, and the time of the last log after it.
unfoldable pub config_interval_timeout : ℕ → ℕ → ℕ → Bool × ℕ
config_interval_timeout interval_ms ns last =
    let interval = u64 (interval_ms * 1000000) in
    if truthy interval && ltb interval ((ns + 2 ^ 64 - last) % 2 ^ 64)
    then (true, ns)
    else (false, last)

-- The application and the profile; whether one of them changed.
unfoldable pub refresh_identity : Hw → Sys → Sys × Bool
refresh_identity hw s =
    let app = hw.current_application_id s.log in
    let profile = hw.get_profile s.log in
    let changed =
      not (app == s.context.application_id) || not (profile_eq profile s.context.profile) in
    (record s { context = record s.context { application_id = app; profile = profile } }, changed)

-- "restore clocks to stock values on app or profile change".
unfoldable pub restore_stock : Hw → Sys → Sys
unfolding wait_for_next_tick
restore_stock hw s =
    let a = issue s reset_to_stock in
    let b =
      if hijacks hw a
      then issue (issue (issue a (pcv_hijack_gpu_volts 0)) (set_hz gpu u32_max)) reset_to_stock_gpu
      else a in
    wait_for_next_tick hw b

-- One round of the loop over clocks and overrides.
unfoldable pub refresh_clock : Hw → Module → Sys × Bool → Sys × Bool
refresh_clock hw m (s, changed) =
    let hz = hw.get_hz s.log m in
    let c = s.context in
    let moved = not (hz == 0) && not (hz == at c.freqs m) in
    let freqs = if moved then put c.freqs m hz else c.freqs in
    let over = get_override_hz s.config m in
    let overridden = not (over == at c.override_freqs m) in
    let overs = if overridden then put c.override_freqs m over else c.override_freqs in
    (
      record s { context = record c { freqs = freqs; override_freqs = overs } },
      overridden || (moved || changed),
    )

unfoldable pub refresh_clocks : Hw → List Module → Sys × Bool → Sys × Bool
refresh_clocks hw [] r = r
refresh_clocks hw (m ∷ ms) r = refresh_clocks hw ms (refresh_clock hw m r)

-- The readings that never force a refresh, and the times of their logs.
unfoldable pub refresh_readings : Hw → Sys → Sys
unfolding config_interval_timeout
refresh_readings hw s =
    let ns = hw.system_ns s.log in
    let real = λ (m : Module). hw.get_real_hz s.log m in
    let temp =
      config_interval_timeout (config_value s temp_log_interval_ms) ns s.last_temp_log_ns in
    let power =
      config_interval_timeout (config_value s power_log_interval_ms) ns s.last_power_log_ns in
    let freq =
      config_interval_timeout (config_value s freq_log_interval_ms) ns s.last_freq_log_ns in
    let csv =
      config_interval_timeout (config_value s csv_write_interval_ms) ns s.last_csv_write_ns in
    let read = record s {
      context = record s.context {
        temps = λ t. hw.get_temperature_milli s.log t;
        power = λ p. hw.get_power_mw s.log p;
        real_freqs = record {
          on_cpu = real Module.cpu;
          on_gpu = real gpu;
          on_mem = real mem;
          on_governor = real Module.governor;
          on_display = real display;
        };
        part_load = λ l. hw.get_part_load s.log l;
        voltages = λ v. hw.get_voltage s.log v;
      };
      last_temp_log_ns = temp.1;
      last_power_log_ns = power.1;
      last_freq_log_ns = freq.1;
      last_csv_write_ns = csv.1;
    } in
    if csv.0 then issue read write_context_to_csv else read

-- The docked state of the display, the frame rate and the resolution.
unfoldable pub refresh_display : Hw → Sys → Sys
refresh_display hw s =
    let a =
      if is_hoag hw.console_type
      then s
      else issue s (set_display_refresh_docked_state (profile_eq s.context.profile docked)) in
    let salty = a.context.is_salty_nx_installed in
    record a {
      context = record a.context {
        fps = if salty then hw.salty_nx_fps a.log else 254;
        resolution_height = if salty then hw.salty_nx_resolution_height a.log else 0;
      };
    }

-- The result is `hasChanged`.
unfoldable pub refresh_context : Hw → Sys → Sys × Bool
unfolding refresh_identity restore_stock refresh_clocks refresh_clock refresh_readings
    refresh_display
refresh_context hw s =
    let (a, changed) = refresh_identity hw s in
    let b = if changed then restore_stock hw a else a in
    let (c, has_changed) = refresh_clocks hw all_modules (b, changed) in
    (refresh_display hw (refresh_readings hw c), has_changed)

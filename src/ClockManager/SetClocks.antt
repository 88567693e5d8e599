-- ===== src/ClockManager/SetClocks.antt =====
-- `SetClocks` of clock_manager.cpp.
pub mod Sets
use horizon_oc.Prelude.{
  ℕ, ◌/◌, Bool, true, false, not, ◌&&◌, Option, some, ◌>>=◌, List, [], ◌∷◌, ltb, ◌==◌,
  if◌then◌else◌, truthy,
}
use horizon_oc.Board.Types.{Module, cpu, gpu, mem, governor, display, at, put, all_modules}
use horizon_oc.Config.Values.{overwrite_boost_mode, overwrite_refresh_rate, live_cpu_uv}
use horizon_oc.ClockManager.State.{Sys, Hw, set_hz, issue, config_value}
use horizon_oc.ClockManager.Limits.{get_max_allowed_hz}
use horizon_oc.ClockManager.Nearest.{get_nearest_hz}
use horizon_oc.ClockManager.Resets.{
  handle_cpu_uv, hijacks, dvfs_before_set, dvfs_after_set, handle_freq_reset,
}
use horizon_oc.Governor.Handle.{resolve_target, handle_governor}

abbrev is_mem : Module → Bool
is_mem mem = true
is_mem _ = false

abbrev is_cpu : Module → Bool
is_cpu cpu = true
is_cpu _ = false

-- `gContext.freqs[module] = hz`.
abbrev pub set_freq : Module → ℕ → Sys → Sys
set_freq m hz s = record s { context = record s.context { freqs = put s.context.freqs m hz } }

-- The part of the body of `if (nearestHz != gContext.freqs[module])` up to the CPU undervolt.
unfoldable pub set_nearest : Hw → Module → ℕ → ℕ → ℕ → Sys → Sys
set_nearest hw m old target nearest s =
    let a =
      if is_mem m && (ltb old target && hijacks hw s) then dvfs_before_set hw target s else s in
    let b = set_freq m nearest (issue a (set_hz m nearest)) in
    if is_cpu m && truthy (config_value b live_cpu_uv) then handle_cpu_uv hw b else b

-- The whole body.
unfoldable pub change_clock : Hw → Module → ℕ → ℕ → ℕ → Sys → Option Sys
unfolding set_nearest
change_clock hw m old target nearest s =
    let c = set_nearest hw m old target nearest s in
    let after = dvfs_after_set hw target c in
    if is_mem m && (ltb target old && hijacks hw c) then after else some c

-- The part of the loop body for a module that no governor drives.
unfoldable pub set_scaled : Hw → Bool → Module → ℕ → ℕ → Sys → Option Sys
set_scaled hw is_boost m old target s =
    let set =
      get_nearest_hz (at s.tables m) target
        (get_max_allowed_hz hw.soc_type s.config.values m s.context.profile)
      >>= λ nearest.
          let change = change_clock hw m old target nearest s in
          if nearest == at s.context.freqs m then some s else change in
    let reset = handle_freq_reset hw m is_boost s in if truthy target then set else reset

unfoldable pub set_display_rate : Hw → Bool → ℕ → Sys → Option Sys
set_display_rate hw is_boost target s =
    let set = set_freq display target (issue s (set_hz display target)) in
    let done = record set {
      context = record set.context { real_freqs = put set.context.real_freqs display target };
    } in
    let reset = handle_freq_reset hw display is_boost s in
    if not s.flags.is_vrr_enabled && truthy (config_value s overwrite_refresh_rate)
    then if truthy target then some done else reset
    else some s

-- One round of the loop. `returnRaw` holds for the modules after MEM.
unfoldable pub set_module : Hw → Bool → Module → Sys → Option Sys
unfolding set_scaled set_display_rate
set_module hw is_boost cpu s =
    let set = set_scaled hw is_boost cpu (hw.get_hz s.log cpu) (resolve_target s cpu false) s in
    if s.flags.is_cpu_governor_enabled then some s else set
set_module hw is_boost gpu s =
    let set = set_scaled hw is_boost gpu (hw.get_hz s.log gpu) (resolve_target s gpu false) s in
    if s.flags.is_gpu_governor_enabled then some s else set
set_module hw is_boost mem s =
    set_scaled hw is_boost mem (hw.get_hz s.log mem) (resolve_target s mem false) s
set_module hw is_boost governor s = some (handle_governor (resolve_target s governor true) s)
set_module hw is_boost display s = set_display_rate hw is_boost (resolve_target s display true) s

unfoldable pub set_modules : Hw → Bool → List Module → Sys → Option Sys
set_modules hw is_boost [] s = some s
set_modules hw is_boost (m ∷ ms) s =
    set_module hw is_boost m s >>= λ t. set_modules hw is_boost ms t

-- The clock that boost mode gives is set again above 1785 MHz.
unfoldable pub keep_boost : Hw → Sys → Sys
keep_boost hw s =
    let hz = hw.get_hz s.log cpu in if ltb 1785 (hz / 1000000) then issue s (set_hz cpu hz) else s

unfoldable pub set_clocks : Hw → Bool → Sys → Option Sys
unfolding keep_boost
set_clocks hw is_boost s =
    let all = set_modules hw is_boost all_modules s in
    if is_boost && not (truthy (config_value s overwrite_boost_mode))
    then some (keep_boost hw s)
    else all

-- ===== src/Governor/Handle.antt =====
-- `HandleGovernor` of governor.cpp: which governors are on, and what is undone when one goes off.
pub mod Edges
use horizon_oc.Prelude.{ℕ, Bool, true, false, not, ◌&&◌, ◌||◌, ◌==◌, if◌then◌else◌}
use horizon_oc.Board.Types.{Module, governor, at}
use horizon_oc.Config.Store.{get_auto_clock_hz}
use horizon_oc.ClockManager.State.{
  Sys, Cmd, sleep_thread, reset_to_stock_cpu, reset_to_stock_gpu, reset_to_stock_display, issue,
}
use horizon_oc.Governor.State.{
  do_not_override, disabled, enabled, governor_state_cpu, governor_state_gpu, governor_state_vrr,
}

-- GLOBAL_PROFILE_ID of clock_manager.h.
abbrev pub global_profile_id : ℕ
global_profile_id = 0xA111111111111111

-- The override, then the profile of the title, then the global profile. The same lines stand in
-- `SetClocks`, `RefreshContext`, `DVFSReset`, `HandleGovernor` and the governor threads.
unfoldable pub resolve_target : Sys → Module → Bool → ℕ
resolve_target s m return_raw =
    let override = at s.context.override_freqs m in
    let title =
      get_auto_clock_hz s.config s.context.application_id m s.context.profile return_raw in
    let global = get_auto_clock_hz s.config global_profile_id m s.context.profile return_raw in
    if override == 0 then if title == 0 then global else title else override

-- The lambda `resolve`.
unfoldable pub resolve : ℕ → ℕ → ℕ
resolve app temp =
    if temp == disabled then disabled else if not (temp == do_not_override) then temp else app

bool_ne : Bool → Bool → Bool
bool_ne true b = not b
bool_ne false b = b

-- A governor that goes off waits for its thread, then the stock clock is restored.
unfoldable pub went_off : Bool → Bool → Cmd → Sys → Sys
went_off new last reset s =
    if not new && last then issue (issue s (sleep_thread 100000000)) reset else s

-- The new states `c`, `g` and `v` against those of the last call.
unfoldable pub set_states : Bool → Bool → Bool → Sys → Sys
unfolding bool_ne went_off
set_states c g v s =
    let f = s.flags in
    let on = record s {
      flags = record f {
        is_cpu_governor_enabled = c;
        is_gpu_governor_enabled = g;
        is_vrr_enabled = v;
      };
    } in
    let a = went_off c f.last_cpu_governor_state reset_to_stock_cpu on in
    let b = went_off g f.last_gpu_governor_state reset_to_stock_gpu a in
    let d = went_off v f.last_vrr_governor_state reset_to_stock_display b in
    let g' = d.flags in
    if bool_ne c f.last_cpu_governor_state
      || (bool_ne g f.last_gpu_governor_state || bool_ne v f.last_vrr_governor_state)
    then record d {
      flags = record g' {
        last_cpu_governor_state = c;
        last_gpu_governor_state = g;
        last_vrr_governor_state = v;
      };
    }
    else d

unfoldable pub handle_governor : ℕ → Sys → Sys
unfolding resolve set_states
handle_governor target s =
    let temp = resolve_target s governor true in
    set_states (resolve (governor_state_cpu target) (governor_state_cpu temp) == enabled)
      (resolve (governor_state_gpu target) (governor_state_gpu temp) == enabled)
      (resolve (governor_state_vrr target) (governor_state_vrr temp) == enabled) s

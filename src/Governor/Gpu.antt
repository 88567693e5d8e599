-- ===== src/Governor/Gpu.antt =====
-- `GovernorThread` of governor.cpp, one round of its loop: the GPU governor.
pub mod Hold
use horizon_oc.Prelude.{ℕ, not, ◌&&◌, ◌||◌, Option, some, ◌>>=◌, ◌==◌, if◌then◌else◌}
use horizon_oc.Board.Types.{gpu, at, gpu_load}
use horizon_oc.ClockManager.State.{Sys, Hw, set_hz, sleep_thread, issue}
use horizon_oc.ClockManager.Limits.{is_assignable_hz}
use horizon_oc.ClockManager.SetClocks.{set_freq}
use horizon_oc.Governor.Ramp.{poll_ns, RampState, ramp_start, table_hz, next_hold, may_set}

unfoldable pub gpu_apply : ℕ → RampState → Sys → RampState × Sys
gpu_apply new_hz r s =
    let hold = next_hold r new_hz in
    if may_set r new_hz && is_assignable_hz gpu new_hz
    then (
      record { down_hold_remaining = hold; last_hz = new_hz },
      issue (set_freq gpu new_hz (issue s (set_hz gpu new_hz))) (sleep_thread poll_ns),
    )
    else (
      record { down_hold_remaining = hold; last_hz = r.last_hz },
      issue s (sleep_thread poll_ns),
    )

unfoldable pub gpu_poll : Hw → RampState → Sys → Option (RampState × Sys)
unfolding gpu_apply
gpu_poll hw r s =
    let govern =
      table_hz hw gpu (hw.get_part_load s.log gpu_load) s >>= λ hz. some (gpu_apply hz r s) in
    if not s.running || not s.flags.is_gpu_governor_enabled
    then some (ramp_start, issue s (sleep_thread poll_ns))
    else if (at s.tables gpu).count == 0
    then some (r, s)
    else govern

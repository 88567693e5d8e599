-- ===== src/Governor/Cpu.antt =====
-- `CpuGovernorThread` of governor.cpp, one round of its loop.
use horizon_oc.Prelude.{
  ℕ, ◌+◌, Bool, true, false, not, ◌&&◌, ◌||◌, Option, none, some, ◌>>=◌, ltb, ◌==◌, if◌then◌else◌,
  u32,
}
use horizon_oc.Board.Types.{cpu, at, cpu_max_load}
use horizon_oc.Config.Values.{cpu_governor_minimum_freq}
use horizon_oc.ClockManager.State.{Sys, Hw, set_hz, sleep_thread, issue, config_value}
use horizon_oc.ClockManager.Limits.{is_assignable_hz}
use horizon_oc.ClockManager.SetClocks.{set_freq}
use horizon_oc.Governor.Boost.{is_boost_mode}
use horizon_oc.Governor.Ramp.{poll_ns, RampState, ramp_start, table_hz, next_hold, may_set}

pub record CpuThread : Type 0 where
  pub ramp : RampState
  pub min_hz : ℕ
  pub tick : ℕ
  pub is_in_boost_mode : Bool  -- isCpuGovernorInBoostMode

-- The locals before the loop.
unfoldable pub cpu_thread_start : CpuThread
cpu_thread_start = record { ramp = ramp_start; min_hz = 612; tick = 0; is_in_boost_mode = false }

-- The floor is read from the configuration every 51 polls.
unfoldable pub refresh_floor : Sys → CpuThread → CpuThread
refresh_floor s th =
    let tick = u32 (th.tick + 1) in
    if ltb 50 tick
    then record th { min_hz = u32 (config_value s cpu_governor_minimum_freq); tick = 0 }
    else record th { tick = tick }

unfoldable pub raise_to : ℕ → ℕ → ℕ
raise_to floor hz = if ltb hz floor then floor else hz

-- From the comparison with the last clock to the end of the round.
unfoldable pub cpu_apply : ℕ → CpuThread → Sys → CpuThread × Sys
unfolding refresh_floor raise_to
cpu_apply hz th s =
    let hold = next_hold th.ramp hz in
    let th' = refresh_floor s th in
    let new_hz = raise_to th'.min_hz hz in
    let kept : RampState = record { down_hold_remaining = hold; last_hz = th.ramp.last_hz } in
    let moved : RampState = record { down_hold_remaining = hold; last_hz = new_hz } in
    if may_set th.ramp hz && is_assignable_hz cpu new_hz
    then (
      record th' { ramp = moved },
      issue (set_freq cpu new_hz (issue s (set_hz cpu new_hz))) (sleep_thread poll_ns),
    )
    else (record th' { ramp = kept }, issue s (sleep_thread poll_ns))

-- A failing service reads as mode 0.
unfoldable pub boosted : Option ℕ → Bool
unfolding is_boost_mode
boosted none = false
boosted (some conf_id) = is_boost_mode conf_id

unfoldable pub cpu_poll : Hw → CpuThread → Sys → Option (CpuThread × Sys)
unfolding boosted cpu_apply
cpu_poll hw th s =
    let go = record th { is_in_boost_mode = false } in
    let govern =
      table_hz hw cpu (hw.get_part_load s.log cpu_max_load) s >>= λ hz. some (cpu_apply hz go s) in
    if not s.running || not s.flags.is_cpu_governor_enabled
    then some (record th { ramp = ramp_start }, issue s (sleep_thread poll_ns))
    else if boosted (hw.performance_configuration s.log)
    then some (record th { ramp = ramp_start; is_in_boost_mode = true }, s)
    else if (at s.tables cpu).count == 0
    then some (go, s)
    else govern

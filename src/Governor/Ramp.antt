-- ===== src/Governor/Ramp.antt =====
-- What the CPU and the GPU thread of governor.cpp share: the clock for a load, its place in the
-- table, and the ramp, which goes up at once and down only after a hold.
pub mod Index
use horizon_oc.Prelude.{
  ℕ, zero, suc, ◌-◌, ◌*◌, ◌/◌, Bool, false, not, ◌&&◌, ◌||◌, Option, some, ◌>>=◌, ltb, leb, ◌==◌,
  if◌then◌else◌, min, u32, u64, truthy,
}
use horizon_oc.Board.Types.{Module, at}
use horizon_oc.ClockManager.State.{Sys, Hw, FreqTable, read}
use horizon_oc.ClockManager.Limits.{get_max_allowed_hz}
use horizon_oc.Governor.Handle.{resolve_target}

-- POLL_NS, DOWN_HOLD_TICKS and STEP_UTIL.
abbrev pub poll_ns : ℕ
poll_ns = 5000000

abbrev pub down_hold_ticks : ℕ
down_hold_ticks = 10

abbrev pub step_util : ℕ
step_util = 900

unfoldable pub schedutil_target_hz : ℕ → ℕ → ℕ
schedutil_target_hz util table_max = u32 (min (u64 (table_max * util) / step_util) table_max)

-- The `for` loop, with the rounds that are left before `i` reaches `count`.
unfoldable pub index_loop : FreqTable → ℕ → ℕ → ℕ → Option ℕ
index_loop t target zero i = some (t.count - 1)
index_loop t target (suc rounds) i =
    let rest = index_loop t target rounds (suc i) in
    read t i >>= λ here. if leb target here then some i else rest

-- The callers have `0 < count`.
unfoldable pub table_index_for_hz : FreqTable → ℕ → Option ℕ
unfolding index_loop
table_index_for_hz t target = index_loop t target t.count 0

-- `if (limit && hz > limit) hz = limit;`
unfoldable pub cap_at : ℕ → ℕ → ℕ
cap_at limit hz = if truthy limit && ltb limit hz then limit else hz

-- The clock that the load asks for, under the target and the cap of the profile.
unfoldable pub desired_hz : Hw → Module → ℕ → ℕ → Sys → ℕ
unfolding cap_at schedutil_target_hz
desired_hz hw m load table_max s =
    cap_at (get_max_allowed_hz hw.soc_type s.config.values m s.context.profile)
      (cap_at (resolve_target s m false) (schedutil_target_hz load table_max))

-- `table.list[TableIndexForHz(table, desiredHz)]`, with the reads on the way.
unfoldable pub table_hz : Hw → Module → ℕ → Sys → Option ℕ
table_hz hw m load s =
    let t = at s.tables m in
    read t (t.count - 1) >>= λ table_max.
    table_index_for_hz t (desired_hz hw m load table_max s) >>= λ i. read t i

-- The locals that a thread keeps from one poll to the next.
pub record RampState : Type 0 where
  pub down_hold_remaining : ℕ
  pub last_hz : ℕ

abbrev pub ramp_start : RampState
ramp_start = record { down_hold_remaining = 0; last_hz = 0 }

unfoldable pub going_down : RampState → ℕ → Bool
going_down r new_hz = not (r.last_hz == 0) && ltb new_hz r.last_hz

armed : RampState → ℕ → ℕ
unfolding going_down
armed r new_hz =
    if not (going_down r new_hz)
    then 0
    else if r.down_hold_remaining == 0
    then down_hold_ticks
    else r.down_hold_remaining

-- The hold after this poll; `-` stops at 0, as the guard `> 0` does.
unfoldable pub next_hold : RampState → ℕ → ℕ
unfolding armed
next_hold r new_hz = armed r new_hz - 1

-- `!goingDown || downHoldRemaining == 0`, after the hold has been counted down.
unfoldable pub may_set : RampState → ℕ → Bool
unfolding next_hold
may_set r new_hz = not (going_down r new_hz) || next_hold r new_hz == 0

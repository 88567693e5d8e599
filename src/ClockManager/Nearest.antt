-- ===== src/ClockManager/Nearest.antt =====
-- `GetNearestHz` of clock_manager.cpp.
pub mod Loop
pub mod Optimal
use horizon_oc.Prelude.{
  ℕ, zero, suc, ◌+◌, ◌-◌, ◌/◌, ◌%◌, ◌^◌, Option, some, ◌>>=◌, ltb, leb, if◌then◌else◌, ◌&&◌,
}
use horizon_oc.ClockManager.State.{FreqTable, read}

-- The `while` loop, with the rounds that are left before `i` reaches `count`; its result is the
-- index at which it ends.
unfoldable pub nearest_loop : FreqTable → ℕ → ℕ → ℕ → ℕ → Option ℕ
nearest_loop t in_hz max_hz zero i = some i
nearest_loop t in_hz max_hz (suc rounds) i =
    let rest = nearest_loop t in_hz max_hz rounds (suc i) in
    read t i >>= λ here.
    if ltb 0 max_hz && leb max_hz here
    then some i
    else read t (suc i) >>= λ next. if leb in_hz ((here + next) / 2) then some i else rest

-- `size_t count = gFreqTable[module].count - 1`, a `u32` subtraction.
unfoldable pub get_nearest_hz : FreqTable → ℕ → ℕ → Option ℕ
unfolding nearest_loop
get_nearest_hz t in_hz max_hz =
    nearest_loop t in_hz max_hz ((t.count + 2 ^ 32 - 1) % 2 ^ 32) 0 >>= λ i. read t i

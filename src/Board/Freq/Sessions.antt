-- ===== src/Board/Freq/Sessions.antt =====
-- What a log of calls leaves behind: the clock of each module and the open sessions.
use horizon_oc.Prelude.{◌==◌, if◌then◌else◌, ℕ, suc, ◌-◌, Bool, Option, none, some, List, [], ◌∷◌}
use horizon_oc.Board.Freq.{
  PcvModule, cpu_bus, gpu_core, emc, FreqCall, get_module_id, clkrst_open_session,
  clkrst_close_session, clkrst_set_clock_rate, pcv_set_clock_rate, sleep_ns, display_set_rate,
  request_performance_mode,
}

abbrev pub pcv_rank : PcvModule → ℕ
pcv_rank cpu_bus = 0
pcv_rank gpu_core = 1
pcv_rank emc = 2

abbrev pub pcv_eq : PcvModule → PcvModule → Bool
pcv_eq p q = pcv_rank p == pcv_rank q

-- The clock that a module was given last.
abbrev pub rate_set : List FreqCall → PcvModule → Option ℕ
rate_set [] m = none
rate_set (get_module_id n ∷ log) m = rate_set log m
rate_set (clkrst_open_session n ∷ log) m = rate_set log m
rate_set (clkrst_close_session n ∷ log) m = rate_set log m
rate_set (clkrst_set_clock_rate n hz ∷ log) m =
    let before = rate_set log m in if pcv_eq n m then some hz else before
rate_set (pcv_set_clock_rate n hz ∷ log) m =
    let before = rate_set log m in if pcv_eq n m then some hz else before
rate_set (sleep_ns ns ∷ log) m = rate_set log m
rate_set (display_set_rate hz ∷ log) m = rate_set log m
rate_set (request_performance_mode mode ∷ log) m = rate_set log m

-- How many sessions of a module are open.
abbrev pub open_sessions : List FreqCall → PcvModule → ℕ
open_sessions [] m = 0
open_sessions (get_module_id n ∷ log) m = open_sessions log m
open_sessions (clkrst_open_session n ∷ log) m =
    let before = open_sessions log m in if pcv_eq n m then suc before else before
open_sessions (clkrst_close_session n ∷ log) m =
    let before = open_sessions log m in if pcv_eq n m then before - 1 else before
open_sessions (clkrst_set_clock_rate n hz ∷ log) m = open_sessions log m
open_sessions (pcv_set_clock_rate n hz ∷ log) m = open_sessions log m
open_sessions (sleep_ns ns ∷ log) m = open_sessions log m
open_sessions (display_set_rate hz ∷ log) m = open_sessions log m
open_sessions (request_performance_mode mode ∷ log) m = open_sessions log m

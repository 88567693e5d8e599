-- ===== src/Board/Freq.antt =====
-- hoc-clk/sysmodule/src/board/board_freq.cpp and board_freq.hpp: the clocks that are set and read,
-- with the table of common/src/apm_profile_table.c. Every call of a service is a step of a log, kept
-- newest first; what the calls answer are functions of the log. `none` is an abort.
pub mod Stock
pub mod Sessions
use horizon_oc.Prelude.{
  ◌>>=◌, truthy, ◌==◌, if◌then◌else◌, ℕ, Bool, Option, none, some, List, [], ◌∷◌,
}
use horizon_oc.Board.Types.{
  Module, cpu, gpu, mem, governor, display, module_rank, ConsoleType, hoag,
}

pub record ApmConfiguration : Type 0 where
  pub id : ℕ
  pub cpu_hz : ℕ
  pub gpu_hz : ℕ
  pub mem_hz : ℕ

abbrev apm : ℕ → ℕ → ℕ → ℕ → ApmConfiguration
apm id cpu_hz gpu_hz mem_hz = record { id = id; cpu_hz = cpu_hz; gpu_hz = gpu_hz; mem_hz = mem_hz }

abbrev pub apm_configurations : List ApmConfiguration
apm_configurations =
    apm 0x00010000 1020000000 384000000 1600000000
    ∷ apm 0x00010001 1020000000 768000000 1600000000
    ∷ apm 0x00010002 1224000000 691200000 1600000000
    ∷ apm 0x00020000 1020000000 230400000 1600000000
    ∷ apm 0x00020001 1020000000 307200000 1600000000
    ∷ apm 0x00020002 1224000000 230400000 1600000000
    ∷ apm 0x00020003 1020000000 307200000 1331200000
    ∷ apm 0x00020004 1020000000 384000000 1331200000
    ∷ apm 0x00020005 1020000000 307200000 1065600000
    ∷ apm 0x00020006 1020000000 384000000 1065600000
    ∷ apm 0x92220007 1020000000 460800000 1600000000
    ∷ apm 0x92220008 1020000000 460800000 1331200000
    ∷ apm 0x92220009 1785000000 76800000 1600000000
    ∷ apm 0x9222000A 1785000000 76800000 1331200000
    ∷ apm 0x9222000B 1020000000 76800000 1600000000
    ∷ apm 0x9222000C 1020000000 76800000 1331200000
    ∷ apm 0 0 0 0
    ∷ []

-- The modules as the services know them. `PcvModule_CpuBus` has the value 0.
pub data PcvModule : Type 0 where
  cpu_bus gpu_core emc : PcvModule

-- The assertion in the default branch holds of every module, which then gets the value 0.
abbrev pub pcv_module : Module → PcvModule
pcv_module cpu = cpu_bus
pcv_module gpu = gpu_core
pcv_module mem = emc
pcv_module governor = cpu_bus
pcv_module display = cpu_bus

-- The calls that have an effect.
pub data FreqCall : Type 0 where
  get_module_id clkrst_open_session clkrst_close_session : PcvModule → FreqCall
  clkrst_set_clock_rate pcv_set_clock_rate : PcvModule → ℕ → FreqCall
  sleep_ns : ℕ → FreqCall
  display_set_rate : ℕ → FreqCall
  request_performance_mode : ℕ → FreqCall

pub record FreqServices : Type 0 where
  pub has_clkrst : Bool
  pub at_least_9 : Bool
  pub answer : List FreqCall → FreqCall → ℕ  -- 0 on success
  pub clock_rate : List FreqCall → PcvModule → ℕ × ℕ
  pub performance_configuration : List FreqCall → ℕ × ℕ
  pub performance_mode : List FreqCall → ℕ × ℕ
  pub display_rate : List FreqCall → ℕ

-- A call whose result is asserted.
abbrev pub checked : FreqServices → FreqCall → List FreqCall → Option (List FreqCall)
checked v c log = if truthy (v.answer log c) then none else some (c ∷ log)

abbrev pub open_checked : FreqServices → PcvModule → List FreqCall → Option (List FreqCall)
open_checked v p log = do
  asked ← checked v (get_module_id p) log
  checked v (clkrst_open_session p) asked

-- The CPU is set twice, for its voltage.
unfoldable pub set_twice : FreqServices → Module → FreqCall → List FreqCall → Option (List FreqCall)
set_twice v m c log = do
  once ← checked v c log
  if module_rank m == 0 then checked v c (sleep_ns 250000 ∷ once) else some once

unfoldable pub set_hz_in : FreqServices → Module → ℕ → List FreqCall → Option (List FreqCall)
unfolding set_twice
set_hz_in v m hz log =
    if v.has_clkrst
    then (do
      opened ← open_checked v (pcv_module m) log
      done ← set_twice v m (clkrst_set_clock_rate (pcv_module m) hz) opened
      some (clkrst_close_session (pcv_module m) ∷ done))
    else set_twice v m (pcv_set_clock_rate (pcv_module m) hz) log

unfoldable pub board_set_hz : FreqServices → Module → ℕ → List FreqCall → Option (List FreqCall)
unfolding set_hz_in
board_set_hz v cpu hz log = set_hz_in v cpu hz log
board_set_hz v gpu hz log = set_hz_in v gpu hz log
board_set_hz v mem hz log = set_hz_in v mem hz log
board_set_hz v governor hz log = some log
board_set_hz v display hz log = some (display_set_rate hz ∷ log)

unfoldable pub board_get_hz : FreqServices → Module → List FreqCall → Option (ℕ × List FreqCall)
board_get_hz v m log =
    if module_rank m == 4
    then some (v.display_rate log, log)
    else if v.has_clkrst
    then (do
      opened ← open_checked v (pcv_module m) log
      let (rc, hz) = v.clock_rate opened (pcv_module m)
      if truthy rc then none else some (hz, clkrst_close_session (pcv_module m) ∷ opened))
    else let (rc, hz) = v.clock_rate log (pcv_module m) in
      if truthy rc then none else some (hz, log)

-- The loop over the table, which an id of 0 ends.
unfoldable pub find_configuration : ℕ → List ApmConfiguration → Option ApmConfiguration
find_configuration conf_id [] = none
find_configuration conf_id (c ∷ cs) =
    let rest = find_configuration conf_id cs in
    if truthy c.id then (if c.id == conf_id then some c else rest) else none

-- The end of both functions where the version is too low.
unfoldable pub request_again : FreqServices → List FreqCall → Option (List FreqCall)
request_again v log =
    let (rc, mode) = v.performance_mode log in
    if truthy rc then none else checked v (request_performance_mode mode) log

unfoldable pub current_configuration : FreqServices → List FreqCall → Option ApmConfiguration
unfolding find_configuration
current_configuration v log =
    let (rc, conf_id) = v.performance_configuration log in
    if truthy rc then none else find_configuration conf_id apm_configurations

unfoldable pub board_reset_to_stock : FreqServices → List FreqCall → Option (List FreqCall)
unfolding current_configuration request_again board_set_hz
board_reset_to_stock v log =
    if v.at_least_9
    then (do
      c ← current_configuration v log
      with_cpu ← board_set_hz v cpu c.cpu_hz log
      with_gpu ← board_set_hz v gpu c.gpu_hz with_cpu
      board_set_hz v mem c.mem_hz with_gpu)
    else request_again v log

unfoldable pub reset_to_stock_module :
    FreqServices → (ApmConfiguration → ℕ) → Module → List FreqCall → Option (List FreqCall)
unfolding current_configuration request_again board_set_hz
reset_to_stock_module v get_hz_func m log =
    if v.at_least_9
    then (do c ← current_configuration v log; board_set_hz v m (get_hz_func c) log)
    else request_again v log

-- `GetHighestDockedDisplayRate`, with the answer of the display.
abbrev pub highest_docked_display_rate : ConsoleType → ℕ → ℕ
highest_docked_display_rate hoag allowed = 60
highest_docked_display_rate console allowed = allowed

-- ===== src/Lib.antt =====
-- Horizon OC: the sysmodule hoc-clk, which sets the clocks of a Nintendo Switch, with its
-- governors, its configuration and its service. Paths are from Source/hoc-clk of the repository.
--
-- The parts and how they interact. The main loop of sysmodule/src/main.cpp ticks the clock
-- manager (sysmodule/src/clock_manager.cpp). A tick applies the safety limits, refreshes the
-- context from the board, reloads the configuration (sysmodule/src/config.cpp) if its file has
-- changed, and then sets the clocks. Three threads of sysmodule/src/governor.cpp follow the load
-- of the CPU, the load of the GPU and the frame rate; `SetClocks` switches them on and off. The
-- overlay reads and writes all of it through the service of sysmodule/src/ipc_service.cpp.
-- sysmodule/src/kip.cpp carries settings between the configuration and the file of the patched
-- loader. The loader itself, in Source/Atmosphere/stratosphere/loader/source/oc, reads these
-- settings and patches the system modules `ptm` (tables of clocks) and `pcv` (clocks and
-- voltages) in memory before they start.
--
-- The files. Prelude holds library names, tests, lists over native numbers, 32-bit words and C
-- strings. Board models common/include/hocclk/board.h (Types, Names) and board_volt.cpp and
-- board_fuse.cpp of sysmodule/src/board (Volt, Dfll, Hijack, Fuses), pllmb.cpp (Pllmb),
-- board_freq.cpp with its header and common/src/apm_profile_table.c (Freq), board_load.cpp
-- (Load), and board_profile.cpp, board_sensor.cpp and GetVoltage of board_volt.cpp (Readings).
-- Config models common/include/hocclk/config.h (Values, Keys) and config.cpp: Store has the state
-- and the look-ups, Ini the file, Load and Save what reads and writes it. ClockManager models
-- clock_manager.cpp: State, Limits, FreqList, Nearest, Resets, SetClocks, Context and Tick hold
-- the functions of the same names. Governor models governor.cpp: State and Handle the switches,
-- Ramp what the CPU and the GPU thread share, Cpu, Gpu and Vrr one round of each thread. Start
-- models `clockManager::Initialize` and `main`, Kip models kip.cpp, Process models
-- process_management.cpp, Integrations integrations.cpp, and Ipc models ipc_service.cpp, with
-- common/src/client/ipc.c in its child Client. Display models board/display_refresh_rate.cpp:
-- Timings the modes and their tables, Handheld, Plld and Docked the rates, and Rate the choice
-- between them. Common models crc32.cpp, memmem.c and i2c.cpp of common/src. Soctherm models
-- sysmodule/src/soctherm.cpp: Tables the sensors, Calibration what they are calibrated with,
-- Sensors how they are started and read. Loader models the patches: Memory the words of a module,
-- Customize the settings, Patcher oc_common.hpp, Ptm ptm/ptm.cpp, and Pcv the files of pcv/
-- (Tables, Search, Safety, Regulators, Asm, Mariko, Erista, Cvb). The children of these modules
-- hold their theorems, and Tests has the examples.
--
-- Correspondence. A definition has the name of the function in snake case; a loop or a branch
-- that is a definition of its own says so; where a field or a command has the name of a function
-- of the board, the function has `board_` in front. The globals of the process are the record
-- `Sys`, the namespace config is the record `Config`. A call that changes the hardware is a value
-- of `Cmd`, kept newest first in the log of `Sys`; what the hardware and the system services
-- answer is the record `Hw` of functions of the commands given so far, and is arbitrary. A
-- failing service, an abort and a read or write outside an array are `none`. Numbers are
-- unbounded and the wrap-around of the source is written out (`u8`, `u32`, `u64`).
--
-- Bounds and fuel. The loops over a table carry the rounds that are left: `count - 1` for the
-- nearest clock, `count` for the index, ten for the multiples of the frame rate, and the words of
-- a module for the searches of the loader. These are the rounds of the source's own loops, so
-- nothing runs out. The searches of the memory of other processes carry the queries that are
-- left: for the voltage table there are at most as many as addresses, with at most as many rounds
-- for a region as there are pages of all addresses, and that for the fuses may go on for ever.
--
-- What is not modelled. Log lines, notifications and mutexes are left out: a function under a
-- lock is one step. minIni is not part of the model: `ini_browse` is the list of entries that it
-- passes on, and `ini_putsection` is a parameter, with the law that it replaces the section.
-- Start and stop of the threads and the stop of the process, the loads of the board that are
-- computed in floating point, the display beyond `SetRate`, the overlay, and the memory timings
-- of the loader, which it computes in floating point, are not modelled; the list of the patches
-- of `pcv` is therefore an argument of the search. In the loader a pointer is the number of a
-- 32-bit word, and `ptr - n` stands for a word in front of it.
pub mod Prelude
pub mod Board
pub mod Config
pub mod ClockManager
pub mod Governor
pub mod Kip
pub mod Common
pub mod Loader
pub mod Display
pub mod Soctherm
pub mod Ipc
pub mod Process
pub mod Integrations
pub mod Start
pub mod Tests

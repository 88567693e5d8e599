-- ===== src/ClockManager.antt =====
-- hoc-clk/sysmodule/src/clock_manager.cpp.
pub mod State
pub mod Limits
pub mod Tables
pub mod FreqList
pub mod Nearest
pub mod Resets
pub mod SetClocks
pub mod Context
pub mod Tick

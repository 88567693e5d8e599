-- ===== src/Governor.antt =====
-- hoc-clk/sysmodule/src/governor.cpp.
pub mod State
pub mod Handle
pub mod Boost
pub mod Ramp
pub mod Cpu
pub mod Gpu
pub mod Vrr
pub mod Commands

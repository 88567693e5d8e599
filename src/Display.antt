-- ===== src/Display.antt =====
-- hoc-clk/sysmodule/src/board/display_refresh_rate.cpp: the refresh rate of the display. The driver
-- of the display is a parameter: which devices open, the mode that is set, and which modes it takes.
pub mod Timings
pub mod Handheld
pub mod Docked
pub mod Plld
pub mod Rate

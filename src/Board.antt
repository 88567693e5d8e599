-- ===== src/Board.antt =====
-- The board: its enumerations (common/include/hocclk/board.h) and the services under
-- hoc-clk/sysmodule/src/board.
pub mod Types
pub mod Volt
pub mod Names
pub mod Dfll
pub mod Hijack
pub mod Pllmb
pub mod Freq
pub mod Load
pub mod Readings
pub mod Fuses

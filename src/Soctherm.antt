-- ===== src/Soctherm.antt =====
-- hoc-clk/sysmodule/src/soctherm.cpp: the thermal sensors of the chip. The registers of the sensors,
-- of the clock controller and of the fuses are functions of their offsets.
pub mod Tables
pub mod Calibration
pub mod Sensors

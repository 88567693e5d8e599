-- ===== src/Config.antt =====
-- The configuration: the values of config.h and the store of hoc-clk/sysmodule/src/config.cpp.
pub mod Values
pub mod Keys
pub mod Store
pub mod Ini
pub mod Valid
pub mod Flags
pub mod Load
pub mod Save

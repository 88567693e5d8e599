-- ===== src/Common.antt =====
-- hoc-clk/common/src: helpers that the service and the overlay share.
pub mod Crc32
pub mod Memmem
pub mod I2c

-- ===== src/Loader/Pcv.antt =====
-- oc/pcv: the patches of the clock and voltage service `pcv`. A patch works at a pointer into the
-- words of the module; words in front of a pointer are written `ptr - n`, since the module is
-- mapped far above address 0.
pub mod Tables
pub mod Search
pub mod Safety
pub mod Regulators
pub mod Asm
pub mod Mariko
pub mod Erista
pub mod Cvb

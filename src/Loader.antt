-- ===== src/Loader.antt =====
-- Atmosphere/stratosphere/loader/source/oc: the loader patches two system modules, `ptm` and `pcv`,
-- in the memory that they are mapped to, with the values of its settings (`CustomizeTable`).
pub mod Memory
pub mod Customize
pub mod Patcher
pub mod Ptm
pub mod Pcv

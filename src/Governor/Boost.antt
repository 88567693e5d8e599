-- ===== src/Governor/Boost.antt =====
-- The boost mode of the performance configurations.
use horizon_oc.Prelude.{leb, Bool, ◌&&◌, ℕ}

-- `apmExtIsBoostMode` of hoc-clk/sysmodule/lib/nxExt/include/nxExt/apm_ext.h.
unfoldable pub is_boost_mode : ℕ → Bool
is_boost_mode conf_id = leb 0x92220009 conf_id && leb conf_id 0x9222000C

-- ===== src/Board/Hijack.antt =====
-- `PcvHijackGpuVolts` of hoc-clk/sysmodule/src/board/board_volt.cpp: the voltage table of the GPU
-- in the memory of the process pcv. Whether pcv can be opened and written is a parameter.
pub mod Restore
pub mod Handle
pub mod Cache
use horizon_oc.Prelude.{leb, ◌==◌, if◌then◌else◌, truthy, ℕ, Bool, ◌&&◌, List, [], ◌∷◌}

-- `GpuVoltData`, and the table in the memory of pcv at `voltTableAddress`.
pub record GpuVolt : Type 0 where
  pub volt_table : List ℕ
  pub ram_vmin : ℕ
  pub in_pcv : List ℕ

-- The loop over the copy of the table.
unfoldable pub raise_table : ℕ → List ℕ → List ℕ
raise_table vmin [] = []
raise_table vmin (v ∷ vs) = (if truthy v && leb v vmin then vmin else v) ∷ raise_table vmin vs

unfoldable pub pcv_hijack_gpu_volts : Bool → Bool → ℕ → GpuVolt → GpuVolt
pcv_hijack_gpu_volts opens writes vmin d =
    if d.ram_vmin == vmin
    then d
    else if opens && writes
    then record d { ram_vmin = vmin; in_pcv = raise_table vmin d.volt_table }
    else d

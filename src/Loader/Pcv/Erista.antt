-- ===== src/Loader/Pcv/Erista.antt =====
-- oc/pcv/pcv_erista.cpp: the patches for Erista, less the memory timings.
pub mod Vmin
use horizon_oc.Prelude.{
  get_or, ◌==◌, leb, truthy, if◌then◌else◌, ℕ, ◌+◌, ◌-◌, ◌&&◌, List, [], ◌∷◌, not,
}
use horizon_oc.Loader.Memory.{patch_offset, patch_if, patch_all, patch_rows, matches}
use horizon_oc.Loader.Customize.{CustomizeTable}
use horizon_oc.Loader.Patcher.{
  PatcherFn, success, invalid_cpu_volt_dfll_entry, invalid_cpu_min_volt, invalid_gpu_dvfs,
}
use horizon_oc.Loader.Pcv.Tables.{checked_last_freq, erista_gpu_table}
use horizon_oc.Loader.Pcv.Safety.{erista_max_emc_clock}
use horizon_oc.Loader.Pcv.Mariko.Clocks.{gpu_freq_max_asm}

abbrev pub cpu_volt_dvfs_pattern : List ℕ
cpu_volt_dvfs_pattern = 1227 ∷ 1000 ∷ 100 ∷ 1000 ∷ 0 ∷ []

-- `CpuVoltDvfs`: the word two before the pointer takes the minimum voltage whenever there is an
-- undervolt level.
unfoldable pub erista_cpu_volt_dvfs : CustomizeTable → PatcherFn
erista_cpu_volt_dvfs c ptr m =
    let low = patch_if c.erista_cpu_vmin ptr m in
    let high =
      if truthy c.erista_cpu_uv then patch_offset (ptr - 2) c.erista_cpu_vmin low else low in
    if not (matches m (ptr + 5) cpu_volt_dvfs_pattern)
    then (invalid_cpu_min_volt, m)
    else (success, patch_if c.erista_cpu_max_volt (ptr + 5) high)

abbrev pub cpu_voltage_thermal_pattern : List ℕ
cpu_voltage_thermal_pattern =
    950 ∷ 1132 ∷ 0 ∷ 950 ∷ 1227 ∷ 0 ∷ 825 ∷ 1227 ∷ 15000 ∷ 825 ∷ 1170 ∷ 60000 ∷ 825 ∷ 1132 ∷ 80000
    ∷ []

-- `CpuVoltThermals`.
unfoldable pub erista_cpu_volt_thermals : CustomizeTable → PatcherFn
erista_cpu_volt_thermals c ptr m =
    let low = c.erista_cpu_vmin in
    let high = c.erista_cpu_max_volt in
    let m' = patch_if low (ptr + 6) (patch_if low (ptr + 3) (patch_if low ptr m)) in
    if not (matches m (ptr - 6) cpu_voltage_thermal_pattern) then (invalid_cpu_min_volt, m) else (
      success,
      patch_if high (ptr + 7)
          (patch_if high (ptr + 4) (patch_if high (ptr + 1) (patch_if high (ptr - 2) m'))),
    )

-- The words that `CpuVoltDfll` writes at each level.
abbrev pub erista_uv_levels : List (List (ℕ × ℕ))
erista_uv_levels =
    []
    ∷ ((1, 0xffff) ∷ (3, 0x27007ff) ∷ [])
    ∷ ((1, 0xefff) ∷ (3, 0x27407ff) ∷ [])
    ∷ ((1, 0xdfff) ∷ (3, 0x27807ff) ∷ [])
    ∷ ((1, 0xdfdf) ∷ (3, 0x27a07ff) ∷ [])
    ∷ ((1, 0xcfdf) ∷ (3, 0x37007ff) ∷ [])
    ∷ []

-- `CpuVoltDfll`.
unfoldable pub erista_cpu_volt_dfll : CustomizeTable → PatcherFn
erista_cpu_volt_dfll c ptr m =
    if not ((m ptr == 0xFFEAD0FF) && (m (ptr + 1) == 0) && (m (ptr + 2) == 0) && (m (ptr + 3) == 0))
    then (invalid_cpu_volt_dfll_entry, m)
    else (success, patch_all (get_or erista_uv_levels c.erista_cpu_uv []) ptr m)

abbrev pub erista_gpu_volt_dvfs_pattern : List ℕ
erista_gpu_volt_dvfs_pattern = 810 ∷ 1150 ∷ 1000 ∷ 100 ∷ 1000 ∷ 10 ∷ []

-- `GpuVoltDVFS`.
unfoldable pub erista_gpu_volt_dvfs : CustomizeTable → PatcherFn
erista_gpu_volt_dvfs c ptr m =
    if not (matches m ptr erista_gpu_volt_dvfs_pattern)
    then (invalid_gpu_dvfs, m)
    else (success, patch_if c.erista_gpu_vmin ptr m)

abbrev pub erista_gpu_volt_thermal_pattern : List ℕ
erista_gpu_volt_thermal_pattern =
    950 ∷ 1132 ∷ 0 ∷ 810 ∷ 1132 ∷ 15000 ∷ 810 ∷ 1132 ∷ 30000 ∷ 810 ∷ 1132 ∷ 50000 ∷ 810 ∷ 1132
    ∷ 70000 ∷ 810 ∷ 1132 ∷ 105000 ∷ []

-- `GpuVoltThermals`.
unfoldable pub erista_gpu_volt_thermals : CustomizeTable → PatcherFn
erista_gpu_volt_thermals c ptr m =
    if not (matches m (ptr - 3) erista_gpu_volt_thermal_pattern)
    then (invalid_gpu_dvfs, m)
    else if truthy c.erista_gpu_vmin
    then (success, patch_rows c.erista_gpu_vmin ptr m)
    else (success, m)

-- `GpuFreqMaxAsm` with the clock of Erista.
unfoldable pub erista_gpu_freq_max_asm : CustomizeTable → PatcherFn
unfolding gpu_freq_max_asm
erista_gpu_freq_max_asm c = gpu_freq_max_asm (checked_last_freq (erista_gpu_table c))

-- `MemFreqMax`.
unfoldable pub erista_mem_freq_max : CustomizeTable → PatcherFn
erista_mem_freq_max c ptr m =
    if leb (erista_max_emc_clock c) 1600000
    then (success, m)
    else (success, patch_offset ptr (erista_max_emc_clock c) m)

-- ===== src/Loader/Pcv/Mariko.antt =====
-- oc/pcv/pcv_mariko.cpp: the patches of the CPU and GPU voltages for Mariko.
pub mod Clocks
pub mod GpuLimit
pub mod CpuCap
use horizon_oc.Prelude.{
  get_or, ◌==◌, leb, truthy, if◌then◌else◌, ℕ, ◌+◌, ◌-◌, Bool, List, [], ◌∷◌, ◌&&◌, not,
}
use horizon_oc.Loader.Memory.{Memory, patch_offset, patch_if, patch_rows, patch_all, matches}
use horizon_oc.Loader.Customize.{CustomizeTable}
use horizon_oc.Loader.Patcher.{
  PatcherFn, success, invalid_cpu_freq_vdd_entry, invalid_cpu_volt_dfll_entry, invalid_cpu_min_volt,
  invalid_gpu_dvfs,
}
use horizon_oc.Loader.Pcv.Tables.{checked_last_freq}

abbrev pub gpu_dvfs_pattern : List ℕ
gpu_dvfs_pattern = 1050 ∷ 1000 ∷ 100 ∷ 1000 ∷ 10 ∷ []

-- `GpuVoltDVFS`.
unfoldable pub gpu_volt_dvfs : CustomizeTable → PatcherFn
gpu_volt_dvfs c ptr m =
    if not (matches m (ptr + 1) gpu_dvfs_pattern)
    then (invalid_gpu_dvfs, m)
    else (success, patch_if c.mariko_gpu_vmin ptr (patch_if c.mariko_gpu_vmax (ptr + 1) m))

abbrev pub gpu_volt_thermal_pattern : List ℕ
gpu_volt_thermal_pattern =
    800 ∷ 1120 ∷ 0 ∷ 610 ∷ 1120 ∷ 20000 ∷ 610 ∷ 1120 ∷ 30000 ∷ 610 ∷ 1120 ∷ 50000 ∷ 610 ∷ 1120
    ∷ 70000 ∷ 610 ∷ 1120 ∷ 90000 ∷ []

-- `GpuVoltThermals`.
unfoldable pub gpu_volt_thermals : CustomizeTable → PatcherFn
gpu_volt_thermals c ptr m =
    if not (matches m (ptr - 3) gpu_volt_thermal_pattern)
    then (invalid_gpu_dvfs, m)
    else if not (truthy c.mariko_gpu_vmin)
    then (success, m)
    else (success, patch_rows c.mariko_gpu_vmin ptr m)

abbrev pub allowed_cpu_max_frequencies : List ℕ
allowed_cpu_max_frequencies =
    1963500 ∷ 2091000 ∷ 2193000 ∷ 2295000 ∷ 2397000 ∷ 2499000 ∷ 2601000 ∷ 2703000 ∷ []

-- The loop of `CapCpuClock`, which ends at the first frequency above the setting.
unfoldable pub cap_loop : ℕ → ℕ → List ℕ → ℕ
cap_loop max_clock cap [] = cap
cap_loop max_clock cap (freq ∷ freqs) =
    let rest = cap_loop max_clock freq freqs in if leb freq max_clock then rest else cap

-- `CapCpuClock`.
unfoldable pub cap_cpu_clock : CustomizeTable → ℕ
unfolding cap_loop
cap_cpu_clock c = cap_loop c.mariko_cpu_max_clock 1963500 allowed_cpu_max_frequencies

-- `CpuFreqVdd` on a `dvfs_rail`, whose `freq` is word 6.
unfoldable pub cpu_freq_vdd : CustomizeTable → PatcherFn
unfolding cap_cpu_clock
cpu_freq_vdd c ptr m =
    let freq =
      if truthy c.mariko_cpu_uv_high
      then cap_cpu_clock c
      else checked_last_freq c.mariko_cpu_dvfs_table in
    if not (
      (m (ptr - 6) == 1)
      && (m (ptr + 10) == 250000)
      && (m (ptr + 11) == 5000)
      && (m (ptr + 12) == 1525000))
    then (invalid_cpu_freq_vdd_entry, m)
    else (success, patch_offset ptr freq m)

-- `MatchesPattern` with `cpuVoltagePatchOffsets` and `cpuVoltagePatchValues`.
abbrev pub is_cpu_voltage : ℕ → Memory → Bool
is_cpu_voltage ptr m =
    (m (ptr - 2) == 850)
    && (m (ptr - 1) == 38)
    && (m (ptr + 5) == 1120)
    && (m (ptr + 6) == 1000)
    && (m (ptr + 7) == 100)
    && (m (ptr + 8) == 1000)
    && (m (ptr + 9) == 0)

-- `CpuVoltDVFS`.
unfoldable pub cpu_volt_dvfs : CustomizeTable → PatcherFn
cpu_volt_dvfs c ptr m =
    if is_cpu_voltage ptr m
    then (
      success,
      patch_if c.mariko_cpu_max_volt (ptr + 5)
          (patch_if c.mariko_cpu_high_vmin (ptr - 2) (patch_if c.mariko_cpu_low_vmin ptr m)),
    )
    else (invalid_cpu_min_volt, m)

abbrev pub cpu_volt_thermal_data : List ℕ
cpu_volt_thermal_data =
    620 ∷ 1120 ∷ 20000 ∷ 620 ∷ 1120 ∷ 70000 ∷ 950 ∷ 1132 ∷ 0 ∷ 950 ∷ 1227 ∷ 0 ∷ []

-- `CpuVoltThermals`.
unfoldable pub cpu_volt_thermals : CustomizeTable → PatcherFn
cpu_volt_thermals c ptr m =
    let low = c.mariko_cpu_low_vmin in
    let high = c.mariko_cpu_max_volt in
    let m' = patch_if low (ptr + 3) (patch_if low ptr m) in
    if not (matches m ptr cpu_volt_thermal_data) then (invalid_cpu_min_volt, m) else (
      success,
      patch_if high (ptr + 4)
          (patch_if high (ptr + 1) (patch_if high (ptr - 5) (patch_if high (ptr - 2) m'))),
    )

-- The words that the first `switch` of `CpuVoltDfll` writes at each level: 0 is `tune0_low`, 1 `tune0_high`,
-- 2 `tune1_low` and 3 `tune1_high`.
abbrev pub uv_low_levels : List (List (ℕ × ℕ))
uv_low_levels =
    []
    ∷ ((0, 0xffa0) ∷ (1, 0xffff) ∷ (2, 0x21107ff) ∷ (3, 0) ∷ [])
    ∷ ((1, 0xffdf) ∷ (2, 0x21107ff) ∷ (3, 0x27207ff) ∷ [])
    ∷ ((0, 0xffdf) ∷ (1, 0xffdf) ∷ (2, 0x21107ff) ∷ (3, 0x27307ff) ∷ [])
    ∷ ((0, 0xffff) ∷ (1, 0xffdf) ∷ (2, 0x21107ff) ∷ (3, 0x27407ff) ∷ [])
    ∷ ((1, 0xffdf) ∷ (2, 0x21607ff) ∷ (3, 0x27707ff) ∷ [])
    ∷ ((1, 0xffdf) ∷ (2, 0x21607ff) ∷ (3, 0x27807ff) ∷ [])
    ∷ ((1, 0xdfff) ∷ (2, 0x21607ff) ∷ (3, 0x27b07ff) ∷ [])
    ∷ ((0, 0xdfff) ∷ (1, 0xdfff) ∷ (2, 0x21707ff) ∷ (3, 0x27b07ff) ∷ [])
    ∷ ((0, 0xdfff) ∷ (1, 0xdfff) ∷ (2, 0x21707ff) ∷ (3, 0x27c07ff) ∷ [])
    ∷ ((0, 0xdfff) ∷ (1, 0xdfff) ∷ (2, 0x21707ff) ∷ (3, 0x27d07ff) ∷ [])
    ∷ ((0, 0xdfff) ∷ (1, 0xdfff) ∷ (2, 0x21707ff) ∷ (3, 0x27e07ff) ∷ [])
    ∷ ((0, 0xdfff) ∷ (1, 0xdfff) ∷ (2, 0x21707ff) ∷ (3, 0x27f07ff) ∷ [])
    ∷ []

abbrev pub uv_low_tunes : ℕ → List (ℕ × ℕ)
uv_low_tunes level = get_or uv_low_levels level []

-- The words that the second `switch` writes at each level.
abbrev pub uv_high_levels : List (List (ℕ × ℕ))
uv_high_levels =
    []
    ∷ ((3, 0) ∷ (1, 0xffff) ∷ [])
    ∷ ((1, 0xffdf) ∷ (3, 0x27207ff) ∷ [])
    ∷ ((1, 0xffdf) ∷ (3, 0x27307ff) ∷ [])
    ∷ ((1, 0xffdf) ∷ (3, 0x27407ff) ∷ [])
    ∷ ((1, 0xffdf) ∷ (3, 0x27707ff) ∷ [])
    ∷ ((1, 0xffdf) ∷ (3, 0x27807ff) ∷ [])
    ∷ ((1, 0xdfff) ∷ (3, 0x27b07ff) ∷ [])
    ∷ ((1, 0xdfff) ∷ (3, 0x27b07ff) ∷ [])
    ∷ ((1, 0xdfff) ∷ (3, 0x27c07ff) ∷ [])
    ∷ ((1, 0xdfff) ∷ (3, 0x27d07ff) ∷ [])
    ∷ ((1, 0xdfff) ∷ (3, 0x27e07ff) ∷ [])
    ∷ ((1, 0xdfff) ∷ (3, 0x27f07ff) ∷ [])
    ∷ []

abbrev pub uv_high_tunes : ℕ → List (ℕ × ℕ)
uv_high_tunes level = get_or uv_high_levels level []

-- `CpuVoltDfll` on a `cvb_cpu_dfll_data`.
unfoldable pub cpu_volt_dfll : CustomizeTable → PatcherFn
cpu_volt_dfll c ptr m =
    if not (
      (m ptr == 0xFFCF)
      && (m (ptr + 1) == 0)
      && (m (ptr + 2) == 0x12207FF)
      && (m (ptr + 3) == 0x3FFF7FF))
    then (invalid_cpu_volt_dfll_entry, m)
    else (
      success,
      patch_all (uv_high_tunes c.mariko_cpu_uv_high) ptr
          (patch_all (uv_low_tunes c.mariko_cpu_uv_low) ptr m),
    )

-- ===== src/Loader/Pcv/Cvb.antt =====
-- oc/pcv/pcv.hpp: the patches that put a voltage table of the settings in place of a stock one. A
-- row is 14 words: the frequency, of 64 bits, and two groups of six coefficients.
pub mod Defaults
pub mod Offset
use horizon_oc.Prelude.{
  ◌==◌, leb, truthy, if◌then◌else◌, u32, ℕ, zero, suc, ◌+◌, ◌-◌, ◌*◌, ◌/◌, ◌%◌, ◌^◌, Bool, ◌&&◌,
  not, List, [], ◌∷◌, ◌++◌,
}
use horizon_oc.Loader.Memory.{Memory, patch_offset, matches}
use horizon_oc.Loader.Customize.{CustomizeTable, CvbEntry}
use horizon_oc.Loader.Patcher.{PatcherFn, success, invalid_cpu_dvfs, invalid_gpu_dvfs}
use horizon_oc.Loader.Pcv.Tables.{get_dvfs_table_entry_count, mariko_gpu_table, erista_gpu_table}
use horizon_oc.Loader.Pcv.Cvb.Defaults.{
  mariko_cpu_cvb_table_default, mariko_gpu_cvb_table_default, erista_cpu_cvb_table_default,
  erista_gpu_cvb_table_default,
}

abbrev pub entry_words : CvbEntry → List ℕ
entry_words e = e.freq % 2 ^ 32 ∷ e.freq / 2 ^ 32 ∷ (e.cvb_dfll_param ++ e.cvb_pll_param)

-- The words of the first `n` rows.
abbrev pub table_words : ℕ → List CvbEntry → List ℕ
table_words zero table = []
table_words (suc n) [] = []
table_words (suc n) (e ∷ table) = entry_words e ++ table_words n table

-- `memcpy` of words.
abbrev pub store_words : ℕ → List ℕ → Memory → Memory
store_words ptr [] m = m
store_words ptr (w ∷ ws) m = store_words (suc ptr) ws (patch_offset ptr w m)

-- The first row of the table whose last row is at the pointer.
abbrev pub table_head : List CvbEntry → ℕ → ℕ
table_head default_table ptr = ptr + 14 - 14 * get_dvfs_table_entry_count default_table

-- Whether the stock table ends at the pointer.
abbrev pub is_default_table : List CvbEntry → ℕ → Memory → Bool
is_default_table default_table ptr m =
    matches m (table_head default_table ptr)
      (table_words (get_dvfs_table_entry_count default_table) default_table)

-- The memory with the table of the settings in its place.
abbrev pub replace_table : List CvbEntry → List CvbEntry → ℕ → Memory → Memory
replace_table default_table customize_table ptr m =
    store_words (table_head default_table ptr)
      (table_words (get_dvfs_table_entry_count customize_table) customize_table) m

-- The loop of `CpuFreqCvbTable` over the rows from 2091 MHz on; word 8 of a row is `c0` of
-- `cvb_pll_param`.
unfoldable pub cap_cpu_volts : ℕ → ℕ → ℕ → Memory → Memory
cap_cpu_volts cpu_max_volt zero entry m = m
cap_cpu_volts cpu_max_volt (suc n) entry m =
    let freq = m entry + 2 ^ 32 * m (entry + 1) in
    let m' =
      if leb 2091000 freq then patch_offset (entry + 8) (u32 (cpu_max_volt * 1000)) m else m in
    cap_cpu_volts cpu_max_volt n (entry + 14) m'

-- The table that `CpuFreqCvbTable<true>` puts in place.
abbrev pub mariko_cpu_customize_table : CustomizeTable → List CvbEntry
mariko_cpu_customize_table c =
    if c.table_conf == 3
    then c.mariko_cpu_dvfs_table1683_tbreak
    else if c.table_conf == 2
    then c.mariko_cpu_dvfs_table1581_tbreak
    else if c.table_conf == 4
    then c.mariko_cpu_dvfs_table_extreme
    else mariko_cpu_cvb_table_default

-- The table that `CpuFreqCvbTable<false>` puts in place.
abbrev pub erista_cpu_customize_table : CustomizeTable → List CvbEntry
erista_cpu_customize_table c =
    if truthy c.erista_cpu_uv
    then if truthy c.erista_cpu_unlock then c.erista_cpu_dvfs_table_slt else c.erista_cpu_dvfs_table
    else erista_cpu_cvb_table_default

-- `CpuFreqCvbTable<true>`.
unfoldable pub mariko_cpu_freq_cvb_table : CustomizeTable → PatcherFn
unfolding cap_cpu_volts
mariko_cpu_freq_cvb_table c ptr m =
    let table = mariko_cpu_customize_table c in
    let head = table_head mariko_cpu_cvb_table_default ptr in
    let m' = replace_table mariko_cpu_cvb_table_default table ptr m in
    if not (is_default_table mariko_cpu_cvb_table_default ptr m)
    then (invalid_cpu_dvfs, m)
    else if truthy c.mariko_cpu_max_volt
    then (success, cap_cpu_volts c.mariko_cpu_max_volt (get_dvfs_table_entry_count table) head m')
    else (success, m')

-- `CpuFreqCvbTable<false>`, whose loop writes nothing.
unfoldable pub erista_cpu_freq_cvb_table : CustomizeTable → PatcherFn
erista_cpu_freq_cvb_table c ptr m =
    if not (is_default_table erista_cpu_cvb_table_default ptr m)
    then (invalid_cpu_dvfs, m)
    else (success, replace_table erista_cpu_cvb_table_default (erista_cpu_customize_table c) ptr m)

-- `ClearCvbPllEntry`.
abbrev pub clear_cvb_pll_entry : ℕ → Memory → Memory
clear_cvb_pll_entry entry m = patch_offset (entry + 13) 0 (
    patch_offset (entry + 12) 0
      (patch_offset (entry + 11) 0 (patch_offset (entry + 10) 0 (patch_offset (entry + 9) 0 m))))

-- `c0 - C.commonGpuVoltOffset * 1000` on words.
abbrev pub lowered : CustomizeTable → ℕ → ℕ
lowered c c0 = u32 (c0 + (2 ^ 32 - u32 (c.common_gpu_volt_offset * 1000)))

-- The body of the first loop of `GpuFreqCvbTable`, with the voltage of the settings for the row.
abbrev pub patch_gpu_volt : CustomizeTable → ℕ → ℕ → Memory → Memory
patch_gpu_volt c volt entry m =
    if not (volt == 0)
    then clear_cvb_pll_entry entry (patch_offset (entry + 8) (u32 (volt * 1000)) m)
    else patch_offset (entry + 8) (lowered c (m (entry + 8))) m

-- The first loop; the array has a place for each row, and the model reads 0 after its end.
unfoldable pub patch_gpu_volts : CustomizeTable → ℕ → ℕ → List ℕ → Memory → Memory
patch_gpu_volts c zero entry volts m = m
patch_gpu_volts c (suc n) entry [] m =
    patch_gpu_volts c n (entry + 14) [] (patch_gpu_volt c 0 entry m)
patch_gpu_volts c (suc n) entry (volt ∷ volts) m =
    patch_gpu_volts c n (entry + 14) volts (patch_gpu_volt c volt entry m)

-- The second loop.
unfoldable pub lower_gpu_volts : CustomizeTable → ℕ → ℕ → Memory → Memory
lower_gpu_volts c zero entry m = m
lower_gpu_volts c (suc n) entry m =
    lower_gpu_volts c n (entry + 14) (patch_offset (entry + 8) (lowered c (m (entry + 8))) m)

-- `GpuFreqCvbTable` with the stock table, the table, the array and the level of a chip.
unfoldable pub gpu_freq_cvb_table :
    List CvbEntry → List CvbEntry → List ℕ → ℕ → CustomizeTable → PatcherFn
unfolding patch_gpu_volts lower_gpu_volts
gpu_freq_cvb_table default_table table volts uv c ptr m =
    let head = table_head default_table ptr in
    let count = get_dvfs_table_entry_count table in
    let m' = patch_gpu_volts c count head volts (replace_table default_table table ptr m) in
    if not (is_default_table default_table ptr m)
    then (invalid_gpu_dvfs, m)
    else if truthy c.common_gpu_volt_offset && not (truthy uv)
    then (success, lower_gpu_volts c count head m')
    else (success, m')

-- `GpuFreqCvbTable<true>`.
unfoldable pub mariko_gpu_freq_cvb_table : CustomizeTable → PatcherFn
unfolding gpu_freq_cvb_table
mariko_gpu_freq_cvb_table c =
    gpu_freq_cvb_table mariko_gpu_cvb_table_default (mariko_gpu_table c) c.mariko_gpu_volt_array
      c.mariko_gpu_uv c

-- `GpuFreqCvbTable<false>`.
unfoldable pub erista_gpu_freq_cvb_table : CustomizeTable → PatcherFn
unfolding gpu_freq_cvb_table
erista_gpu_freq_cvb_table c =
    gpu_freq_cvb_table erista_gpu_cvb_table_default (erista_gpu_table c) c.erista_gpu_volt_array
      c.erista_gpu_uv c

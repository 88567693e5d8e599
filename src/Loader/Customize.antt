-- ===== src/Loader/Customize.antt =====
-- oc/customize.hpp: the settings of the loader that the patches read.
use horizon_oc.Prelude.{ℕ, List}

-- A row of a voltage table: the frequency in kHz and the two groups of six coefficients, as words.
pub record CvbEntry : Type 0 where
  pub freq : ℕ
  pub cvb_dfll_param : List ℕ
  pub cvb_pll_param : List ℕ

-- `CustomizeTable`, less the timings of the memory and the fields in reserve.
pub record CustomizeTable : Type 0 where
  pub common_emc_mem_volt : ℕ
  pub erista_emc_max_clock : ℕ
  pub erista_emc_max_clock1 : ℕ
  pub erista_emc_max_clock2 : ℕ
  pub mariko_emc_max_clock : ℕ
  pub mariko_emc_vddq_volt : ℕ
  pub emc_dvb_shift : ℕ
  pub erista_cpu_uv : ℕ
  pub erista_cpu_vmin : ℕ
  pub erista_cpu_max_volt : ℕ
  pub erista_cpu_unlock : ℕ
  pub mariko_cpu_uv_low : ℕ
  pub mariko_cpu_uv_high : ℕ
  pub table_conf : ℕ
  pub mariko_cpu_low_vmin : ℕ
  pub mariko_cpu_high_vmin : ℕ
  pub mariko_cpu_max_volt : ℕ
  pub mariko_cpu_max_clock : ℕ
  pub erista_cpu_boost_clock : ℕ
  pub mariko_cpu_boost_clock : ℕ
  pub erista_gpu_uv : ℕ
  pub erista_gpu_vmin : ℕ
  pub mariko_gpu_uv : ℕ
  pub mariko_gpu_vmin : ℕ
  pub mariko_gpu_vmax : ℕ
  pub common_gpu_volt_offset : ℕ
  pub erista_gpu_volt_array : List ℕ
  pub mariko_gpu_volt_array : List ℕ
  pub erista_cpu_dvfs_table : List CvbEntry
  pub erista_cpu_dvfs_table_slt : List CvbEntry
  pub mariko_cpu_dvfs_table : List CvbEntry
  pub mariko_cpu_dvfs_table_slt : List CvbEntry
  pub mariko_cpu_dvfs_table1581_tbreak : List CvbEntry
  pub mariko_cpu_dvfs_table1683_tbreak : List CvbEntry
  pub mariko_cpu_dvfs_table_extreme : List CvbEntry
  pub erista_gpu_dvfs_table : List CvbEntry
  pub erista_gpu_dvfs_table_slt : List CvbEntry
  pub erista_gpu_dvfs_table_hi_opt : List CvbEntry
  pub mariko_gpu_dvfs_table : List CvbEntry
  pub mariko_gpu_dvfs_table_slt : List CvbEntry
  pub mariko_gpu_dvfs_table_hi_opt : List CvbEntry

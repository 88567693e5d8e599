-- ===== src/Loader/Pcv/Tables.antt =====
-- oc/pcv/pcv_common.hpp: the voltage tables and their last entry. A list stands for an array whose
-- further rows are empty.
use horizon_oc.Prelude.{
  ◌==◌, if◌then◌else◌, u32, get_elem?, ◌>>=◌, ℕ, zero, suc, ◌-◌, Bool, true, Option, none, some,
  List, [], ◌∷◌, ◌&&◌,
}
use horizon_oc.Loader.Customize.{CustomizeTable, CvbEntry}

abbrev pub all_zero : List ℕ → Bool
all_zero [] = true
all_zero (w ∷ ws) = (w == 0) && all_zero ws

abbrev pub is_empty : CvbEntry → Bool
is_empty e = (e.freq == 0) && all_zero e.cvb_dfll_param && all_zero e.cvb_pll_param

abbrev pub dvfs_table_entry_limit : ℕ
dvfs_table_entry_limit = 31

-- The loop of `GetDvfsTableEntryCount`, for the rows that are left.
abbrev pub count_entries : ℕ → List CvbEntry → ℕ
count_entries zero table = 0
count_entries (suc n) [] = 0
count_entries (suc n) (e ∷ table) =
    let rest = count_entries n table in if is_empty e then 0 else suc rest

abbrev pub get_dvfs_table_entry_count : List CvbEntry → ℕ
get_dvfs_table_entry_count table = count_entries dvfs_table_entry_limit table

-- `GetDvfsTableLastEntry`; `none` is the null pointer.
abbrev pub get_dvfs_table_last_entry : List CvbEntry → Option CvbEntry
get_dvfs_table_last_entry table =
    let count = get_dvfs_table_entry_count table in
    if count == 0 then none else get_elem? table (count - 1)

-- The frequency of the last entry as a `u32`; `none` is a read through the null pointer.
abbrev pub last_freq : List CvbEntry → Option ℕ
last_freq table = get_dvfs_table_last_entry table >>= λ e. some (u32 e.freq)

-- The same where `SafetyCheck` has read it before, so that there is a last entry.
abbrev pub checked_last_freq : List CvbEntry → ℕ
checked_last_freq table = elim (last_freq table) [ some freq ↦ freq | none ↦ 0 ]

-- The CPU table of Mariko that `SafetyCheck` reads.
abbrev pub mariko_cpu_table : CustomizeTable → List CvbEntry
mariko_cpu_table c =
    if c.mariko_cpu_uv_high == 0 then c.mariko_cpu_dvfs_table else c.mariko_cpu_dvfs_table_slt

abbrev pub mariko_gpu_table : CustomizeTable → List CvbEntry
mariko_gpu_table c =
    if c.mariko_gpu_uv == 1
    then c.mariko_gpu_dvfs_table_slt
    else if c.mariko_gpu_uv == 2
    then c.mariko_gpu_dvfs_table_hi_opt
    else c.mariko_gpu_dvfs_table

abbrev pub erista_gpu_table : CustomizeTable → List CvbEntry
erista_gpu_table c =
    if c.erista_gpu_uv == 1
    then c.erista_gpu_dvfs_table_slt
    else if c.erista_gpu_uv == 2
    then c.erista_gpu_dvfs_table_hi_opt
    else c.erista_gpu_dvfs_table

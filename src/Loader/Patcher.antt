-- ===== src/Loader/Patcher.antt =====
-- oc/oc_common.hpp: the results of the patches, and `PatcherEntry`, a patch with the count of its
-- applications.
use horizon_oc.Prelude.{
  ◌==◌, leb, truthy, if◌then◌else◌, ℕ, suc, Bool, true, false, Option, none, some, not, ◌&&◌,
}
use horizon_oc.Loader.Memory.{Memory}

pub data Result : Type 0 where
  success : Result
  invalid_mem_pllm_entry : Result
  invalid_mtc_table : Result
  invalid_dvb_table : Result
  invalid_cpu_freq_vdd_entry : Result
  invalid_cpu_volt_dfll_entry : Result
  invalid_cpu_dvfs : Result
  invalid_cpu_min_volt : Result
  invalid_gpu_dvfs : Result
  invalid_gpu_freq_max_pattern : Result
  invalid_gpu_pll_entry : Result
  invalid_regulator_entry : Result
  unsuccessful_patcher : Result
  safety_check_failure : Result
  -- a result of the I2C service
  i2c_failure : Result

-- `R_SUCCEEDED`.
abbrev pub succeeded : Result → Bool
succeeded success = true
succeeded _ = false

-- A function that patches at a pointer.
abbrev pub PatcherFn : Type 0
PatcherFn = ℕ → Memory → Result × Memory

pub record PatcherEntry : Type 0 where
  pub patcher_fn : PatcherFn
  pub maximum_patched_count : ℕ
  pub pattern_search_fn : Option (ℕ → Memory → Bool)
  pub value_search : ℕ
  pub patched_count : ℕ

-- The count after a patch with a result.
abbrev pub counted : Result → PatcherEntry → PatcherEntry
counted res e = if succeeded res then record e { patched_count = suc e.patched_count } else e

-- `Apply`.
abbrev pub apply : PatcherEntry → ℕ → Memory → Result × (PatcherEntry × Memory)
apply e ptr m = let (res, m') = e.patcher_fn ptr m in (res, (counted res e, m'))

-- The test of `SearchAndApply`.
abbrev pub search_ok : PatcherEntry → ℕ → Memory → Bool
search_ok e ptr m = elim e.pattern_search_fn [
  | some pattern ↦ pattern ptr m
  | none ↦ e.value_search == m ptr
]

-- `SearchAndApply`.
abbrev pub search_and_apply : PatcherEntry → ℕ → Memory → Result × (PatcherEntry × Memory)
search_and_apply e ptr m =
    if search_ok e ptr m then apply e ptr m else (unsuccessful_patcher, (e, m))

-- `CheckResult` in the loader; the build for tests also wants a count above 0.
abbrev pub check_result : PatcherEntry → Result
check_result e =
    if truthy e.maximum_patched_count && not (leb e.patched_count e.maximum_patched_count)
    then unsuccessful_patcher
    else success

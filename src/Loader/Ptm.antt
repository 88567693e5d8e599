-- ===== src/Loader/Ptm.antt =====
-- oc/ptm/ptm.cpp: the patch of the table of performance configurations in `ptm`. An entry is eight
-- words: its id, the pairs of CPU, GPU and memory clocks in Hz, and padding. `none` is `CRASH`.
pub mod Entry
pub mod Patched
use horizon_oc.Prelude.{
  ◌==◌, truthy, if◌then◌else◌, u32, ◌>>=◌, ℕ, zero, suc, ◌+◌, ◌*◌, Bool, false, Option, none, some,
  not, ◌&&◌, ◌||◌,
}
use horizon_oc.Loader.Memory.{Memory, patch_offset, rounds}
use horizon_oc.Loader.Customize.{CustomizeTable}
use horizon_oc.Loader.Patcher.{PatcherFn, PatcherEntry, success, succeeded, apply, check_result}

abbrev pub cpu_ptm_default : ℕ
cpu_ptm_default = 1020000000

abbrev pub cpu_ptm_dev_oc : ℕ
cpu_ptm_dev_oc = 1224000000

abbrev pub cpu_ptm_boost : ℕ
cpu_ptm_boost = 1785000000

abbrev pub mem_ptm_limit : ℕ
mem_ptm_limit = 1600000000

abbrev pub mem_ptm_alt : ℕ
mem_ptm_alt = 1331200000

abbrev pub mem_ptm_clamp : ℕ
mem_ptm_clamp = 1065600000

abbrev pub entry_cnt : ℕ
entry_cnt = 16

-- The clock that `CpuPtmBoost` writes, in Hz.
abbrev pub cpu_ptm_boost_new : Bool → CustomizeTable → ℕ
cpu_ptm_boost_new is_mariko c =
    u32 ((if is_mariko then c.mariko_cpu_boost_clock else c.erista_cpu_boost_clock) * 1000)

-- `CpuPtmBoost`.
unfoldable pub apply_cpu_ptm_boost : Bool → CustomizeTable → PatcherFn
apply_cpu_ptm_boost is_mariko c entry m =
    let new = cpu_ptm_boost_new is_mariko c in
    if not (truthy c.erista_cpu_boost_clock) || not (truthy c.mariko_cpu_boost_clock)
    then (success, m)
    else (success, patch_offset (entry + 2) new (patch_offset (entry + 1) new m))

-- `MemPtm`.
unfoldable pub mem_ptm : PatcherFn
mem_ptm entry m =
    (success, patch_offset (entry + 6) mem_ptm_limit (patch_offset (entry + 5) mem_ptm_limit m))

abbrev pub ptm_entry_is_valid : ℕ → Memory → Bool
ptm_entry_is_valid entry m =
    (m (entry + 1) == m (entry + 2))
    && (m (entry + 3) == m (entry + 4))
    && (m (entry + 5) == m (entry + 6))

abbrev pub ptm_table_pattern_fn : ℕ → Memory → Bool
ptm_table_pattern_fn ptr m =
    if not (ptm_entry_is_valid ptr m) then false else m (ptr + 1) == cpu_ptm_default

-- The search of `Patch` for the table.
unfoldable pub find_conf_table : ℕ → ℕ → Memory → Option ℕ
find_conf_table zero ptr m = none
find_conf_table (suc n) ptr m =
    let rest = find_conf_table n (suc ptr) m in
    if ptm_table_pattern_fn ptr m then some ptr else rest

-- The memory with the two patches.
pub record PtmState : Type 0 where
  pub memory : Memory
  pub cpu_patch : PatcherEntry
  pub mem_patch : PatcherEntry

-- `cpuPtmBoostPatch.Apply`.
abbrev pub apply_cpu_patch : ℕ → PtmState → PtmState
apply_cpu_patch entry s =
    let (res, (patch, memory)) = apply s.cpu_patch entry s.memory in
    record s { memory = memory; cpu_patch = patch }

-- `memPtmPatch.Apply`.
abbrev pub apply_mem_patch : ℕ → PtmState → PtmState
apply_mem_patch entry s =
    let (res, (patch, memory)) = apply s.mem_patch entry s.memory in
    record s { memory = memory; mem_patch = patch }

-- The `switch` on the CPU clock.
unfoldable pub cpu_switch : ℕ → PtmState → Option PtmState
cpu_switch entry s =
    let freq = s.memory (entry + 1) in
    if freq == cpu_ptm_boost
    then some (apply_cpu_patch entry s)
    else if (freq == cpu_ptm_default) || (freq == cpu_ptm_dev_oc)
    then some s
    else none

-- The `switch` on the memory clock.
unfoldable pub mem_switch : Bool → ℕ → PtmState → Option PtmState
mem_switch is_mariko entry s =
    let freq = s.memory (entry + 5) in
    if (freq == mem_ptm_limit) || (freq == mem_ptm_alt) || (freq == mem_ptm_clamp)
    then some (if is_mariko then apply_mem_patch entry s else s)
    else none

-- The body of the loop of `Patch`.
unfoldable pub patch_entry : Bool → ℕ → PtmState → Option PtmState
unfolding cpu_switch mem_switch
patch_entry is_mariko entry s =
    if not (ptm_entry_is_valid entry s.memory)
    then none
    else cpu_switch entry s >>= mem_switch is_mariko entry

-- The loop over the entries.
unfoldable pub patch_entries : Bool → ℕ → ℕ → PtmState → Option PtmState
unfolding patch_entry
patch_entries is_mariko zero entry s = some s
patch_entries is_mariko (suc n) entry s =
    patch_entry is_mariko entry s >>= patch_entries is_mariko n (entry + 8)

-- The state before the loop.
abbrev pub ptm_start : Bool → CustomizeTable → Memory → PtmState
ptm_start is_mariko c m = record {
  memory = m;
  cpu_patch = record {
    patcher_fn = apply_cpu_ptm_boost is_mariko c;
    maximum_patched_count = 2;
    pattern_search_fn = none;
    value_search = 0;
    patched_count = 0;
  };
  mem_patch = record {
    patcher_fn = mem_ptm;
    maximum_patched_count = 16;
    pattern_search_fn = none;
    value_search = 0;
    patched_count = 0;
  };
}

-- The checks of the counts after the loop.
abbrev pub check_counts : Bool → PtmState → Option Memory
check_counts is_mariko s =
    if not (succeeded (check_result s.cpu_patch))
    then none
    else if is_mariko && not (succeeded (check_result s.mem_patch))
    then none
    else some s.memory

-- `Patch` on a module of `nso_size` bytes.
unfoldable pub patch_ptm : Bool → CustomizeTable → ℕ → ℕ → Memory → Option Memory
unfolding find_conf_table patch_entries apply_cpu_ptm_boost mem_ptm
patch_ptm is_mariko c mapped_nso nso_size m =
    find_conf_table (rounds nso_size (32 * entry_cnt)) mapped_nso m >>= λ conf_table.
    patch_entries is_mariko entry_cnt conf_table (ptm_start is_mariko c m)
    >>= check_counts is_mariko

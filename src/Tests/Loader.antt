-- ===== src/Tests/Loader.antt =====
-- Examples for the patches of the loader and the shared helpers.
use horizon_oc.Prelude.{
  not, Bool-cases, ◌==◌, if◌then◌else◌, ◌||◌, ℕ, ◌+◌, ◌*◌, ◌%◌, ◌^◌, ◌≤◌, ◌<◌, ◌≡◌, ◌≢◌, ◌↔◌, ◌⊎◌,
  inl, inr, refl, Bool, true, false, none, some, List, [], ◌∷◌, arith,
}
use horizon_oc.Common.Crc32.{checksum_file, crc32}
use horizon_oc.Common.Crc32.Reference.{reference_crc, checksum_file-crc32}
use horizon_oc.Common.Crc32.Detects.{crc32-detects}
use horizon_oc.Common.Memmem.{memmem_impl}
use horizon_oc.Common.Memmem.First.{IsFirst, memmem_impl-IsFirst}
use horizon_oc.Loader.Memory.{Memory, rounds, matches}
use horizon_oc.Loader.Customize.{CustomizeTable, CvbEntry}
use horizon_oc.Loader.Patcher.{PatcherEntry, succeeded, success, invalid_gpu_freq_max_pattern}
use horizon_oc.Loader.Ptm.{entry_cnt, patch_ptm, find_conf_table}
use horizon_oc.Loader.Ptm.Entry.{IsKnown, IsPatched}
use horizon_oc.Loader.Ptm.Patched.{patch_ptm-IsPatched}
use horizon_oc.Loader.Pcv.Search.{search_patches, apply_first, patch_pcv}
use horizon_oc.Loader.Pcv.Search.Frame.{
  total, one_succeeds, words_patched, Reaches, Ran, IsOutcome, patch_pcv-IsOutcome,
}
use horizon_oc.Loader.Pcv.Safety.{safety_check}
use horizon_oc.Loader.Pcv.Safety.Bounds.{IsSafe, safety_check-IsSafe}
use horizon_oc.Loader.Pcv.Regulators.{emc_vddq_volt, vddq_step}
use horizon_oc.Loader.Pcv.Regulators.InRange.{IsVddqVolt, emc_vddq_volt-IsVddqVolt}
use horizon_oc.Loader.Pcv.Asm.{asm_get_rd}
use horizon_oc.Loader.Pcv.Mariko.Clocks.{
  gpu_freq_max_asm, gpu_freq_pll_max, is_gpu_limit, no_pll_params,
}
use horizon_oc.Loader.Pcv.Mariko.GpuLimit.{loaded_clock, Loads, gpu_freq_max_asm-Loads}
use horizon_oc.Loader.Pcv.Cvb.{gpu_freq_cvb_table, replace_table, is_default_table}
use horizon_oc.Loader.Pcv.Cvb.Defaults.{row}
use horizon_oc.Loader.Pcv.Cvb.Offset.{times_lowered, first_volt, gpu_freq_cvb_table-row}

checksum_file-crc32_example :
    (crc32 (49 ∷ 50 ∷ 51 ∷ []) ≡ reference_crc (49 ∷ 50 ∷ 51 ∷ []))
    × (checksum_file (some ((49 ∷ 50 ∷ []) ∷ (51 ∷ []) ∷ [])) ≡ reference_crc (49 ∷ 50 ∷ 51 ∷ []))
checksum_file-crc32_example = checksum_file-crc32 ((49 ∷ 50 ∷ []) ∷ (51 ∷ []) ∷ [])

crc32-detects_example : crc32 (1 ∷ 2 ∷ 3 ∷ []) ≢ crc32 (1 ∷ 4 ∷ 3 ∷ [])
crc32-detects_example =
    crc32-detects (1 ∷ []) (3 ∷ []) 2 4 (omega arith, tt) (omega arith, tt) (omega arith)
      (omega arith) (omega arith)

memmem_impl-IsFirst_example :
    IsFirst
      (1 ∷ 2 ∷ 3 ∷ 2 ∷ 3 ∷ [])
      (2 ∷ 3 ∷ [])
      (memmem_impl (some (1 ∷ 2 ∷ 3 ∷ 2 ∷ 3 ∷ [])) (some (2 ∷ 3 ∷ [])))
memmem_impl-IsFirst_example =
    memmem_impl-IsFirst (1 ∷ 2 ∷ 3 ∷ 2 ∷ 3 ∷ []) (2 ∷ 3 ∷ []) (omega arith)

abbrev zeros6 : List ℕ
zeros6 = 0 ∷ 0 ∷ 0 ∷ 0 ∷ 0 ∷ 0 ∷ []

abbrev ends_at : ℕ → List CvbEntry
ends_at freq = row freq zeros6 (1000000 ∷ 0 ∷ 0 ∷ 0 ∷ 0 ∷ 0 ∷ []) ∷ []

abbrev settings : CustomizeTable
settings = record {
  common_emc_mem_volt = 1180000;
  erista_emc_max_clock = 1862400;
  erista_emc_max_clock1 = 1862400;
  erista_emc_max_clock2 = 1862400;
  mariko_emc_max_clock = 2133000;
  mariko_emc_vddq_volt = 601000;
  emc_dvb_shift = 0;
  erista_cpu_uv = 0;
  erista_cpu_vmin = 0;
  erista_cpu_max_volt = 1235;
  erista_cpu_unlock = 0;
  mariko_cpu_uv_low = 0;
  mariko_cpu_uv_high = 0;
  table_conf = 1;
  mariko_cpu_low_vmin = 0;
  mariko_cpu_high_vmin = 0;
  mariko_cpu_max_volt = 1120;
  mariko_cpu_max_clock = 2397000;
  erista_cpu_boost_clock = 1785000;
  mariko_cpu_boost_clock = 1963500;
  erista_gpu_uv = 0;
  erista_gpu_vmin = 0;
  mariko_gpu_uv = 0;
  mariko_gpu_vmin = 600;
  mariko_gpu_vmax = 800;
  common_gpu_volt_offset = 10;
  erista_gpu_volt_array = [];
  mariko_gpu_volt_array = [];
  erista_cpu_dvfs_table = ends_at 1785000;
  erista_cpu_dvfs_table_slt = [];
  mariko_cpu_dvfs_table = ends_at 1963500;
  mariko_cpu_dvfs_table_slt = [];
  mariko_cpu_dvfs_table1581_tbreak = [];
  mariko_cpu_dvfs_table1683_tbreak = [];
  mariko_cpu_dvfs_table_extreme = [];
  erista_gpu_dvfs_table = ends_at 921600;
  erista_gpu_dvfs_table_slt = [];
  erista_gpu_dvfs_table_hi_opt = [];
  mariko_gpu_dvfs_table = ends_at 1267200;
  mariko_gpu_dvfs_table_slt = [];
  mariko_gpu_dvfs_table_hi_opt = [];
}

settings-pass : safety_check settings ≡ true
unfolding safety_check
settings-pass = refl

safety_check-IsSafe_example : IsSafe settings
safety_check-IsSafe_example = safety_check-IsSafe settings settings-pass

-- A table at word 96 whose second entry has the boost clock.
abbrev conf_words : Memory
conf_words a =
    if (a == 105) || (a == 106)
    then 1785000000
    else if (a % 8 == 1) || (a % 8 == 2)
    then 1020000000
    else if (a % 8 == 3) || (a % 8 == 4)
    then 307200000
    else if (a % 8 == 5) || (a % 8 == 6)
    then 1331200000
    else 0

conf_words-IsKnown : (i : ℕ) → IsKnown (96 + 8 * i) conf_words
conf_words-IsKnown i = record {
  cpu_pair = ground arith;
  gpu_pair = ground arith;
  emc_pair = ground arith;
  cpu_clock = ground arith;
  emc_clock = ground arith;
}

patch_ptm-IsPatched_example :
    (m' : Memory) × (patch_ptm true settings 96 512 conf_words ≡ some m')
    × ((i : ℕ) → i < entry_cnt → IsPatched true settings (96 + 8 * i) conf_words m')
    × ((a : ℕ) → (a < 96) ⊎ (96 + 8 * entry_cnt ≤ a) → m' a ≡ conf_words a)
unfolding find_conf_table
patch_ptm-IsPatched_example =
    patch_ptm-IsPatched true settings 96 512 96 conf_words refl (λ i h. conf_words-IsKnown i)
      (omega arith)

-- The regulator of the memory's input and output, at word 10.
abbrev vddq_regulator : Memory
vddq_regulator a =
    if a == 10
    then 2
    else if a == 14
    then 3
    else if a == 16
    then 5000
    else if a == 18
    then 250000
    else 0

abbrev takes_all : ℕ → ℕ → Bool
takes_all register value = true

emc_vddq_volt-IsVddqVolt_example :
    ((a : ℕ) → (emc_vddq_volt takes_all settings 21 vddq_regulator).1 a ≡ vddq_regulator a)
    ⊎ (IsVddqVolt 601000
          ((emc_vddq_volt takes_all settings 21 vddq_regulator).1 21)
          (vddq_step settings)
        × ((a : ℕ)
            → a ≢ 21
            → (emc_vddq_volt takes_all settings 21 vddq_regulator).1 a ≡ vddq_regulator a)
        × ((succeeded (emc_vddq_volt takes_all settings 21 vddq_regulator).0 ≡ true)
            ↔ (takes_all 0x25 (vddq_step settings) ≡ true)))
emc_vddq_volt-IsVddqVolt_example =
    emc_vddq_volt-IsVddqVolt takes_all settings 21 vddq_regulator settings-pass

-- `MOV W11, #0x1000` and `MOVK W11, #0xE, LSL #16`.
abbrev gpu_code : Memory
gpu_code a = if a == 50 then 0x5282000B else if a == 51 then 0x72A001CB else 0

gpu_code-found : is_gpu_limit 50 gpu_code ≡ true
gpu_code-found = refl

gpu_freq_max_asm-Loads_example :
    (is_gpu_limit 50 gpu_code ≡ true
      → (◌≡◌ {A = ℕ} (loaded_clock 50 gpu_code) 921600)
        × ((gpu_freq_max_asm 1267200 50 gpu_code).0 ≡ success)
        × Loads 1267200
            (asm_get_rd (gpu_code 50))
            50
            gpu_code
            (gpu_freq_max_asm 1267200 50 gpu_code).1)
    × (is_gpu_limit 50 gpu_code ≡ false
        → gpu_freq_max_asm 1267200 50 gpu_code ≡ (invalid_gpu_freq_max_pattern, gpu_code))
gpu_freq_max_asm-Loads_example = gpu_freq_max_asm-Loads 1267200 50 gpu_code (omega arith)

abbrev pll_max : PatcherEntry
pll_max = record {
  patcher_fn = gpu_freq_pll_max;
  maximum_patched_count = 1;
  pattern_search_fn = none;
  value_search = 1300000000;
  patched_count = 0;
}

pll_max-Reaches : Reaches 0 0 pll_max
unfolding gpu_freq_pll_max
pll_max-Reaches ptr m a far = elim (Bool-cases (not (matches m (ptr + 1) no_pll_params))) [
  | inl other ↦ rw other refl
  | inr here ↦ rw here (ground arith)
]

-- The limit of the PLL at word 40.
abbrev pll_words : Memory
pll_words a = if a == 40 then 1300000000 else 0

patch_pcv-IsOutcome_example :
    let searched = search_patches (rounds 400 72) 0 (pll_max ∷ []) pll_words in
    Ran 0 0 (rounds 400 72) 0 (pll_max ∷ []) pll_words searched
    × (total (apply_first (pll_max ∷ []) 40 pll_words).0
        ≡ total (pll_max ∷ []) + (if one_succeeds (pll_max ∷ []) 40 pll_words then 1 else 0))
    × (total searched.0
        ≡ total (pll_max ∷ []) + words_patched (rounds 400 72) 0 (pll_max ∷ []) pll_words)
    × IsOutcome searched.0 searched.1 (patch_pcv 72 (pll_max ∷ []) 0 400 pll_words)
patch_pcv-IsOutcome_example =
    patch_pcv-IsOutcome 0 0 72 (pll_max ∷ []) 0 400 pll_words (pll_max ∷ []) 40 pll_words
      (pll_max-Reaches, tt) (pll_max-Reaches, tt)

-- A stock table of one row at words 28 to 41.
abbrev one_row : List CvbEntry
one_row = ends_at 1267200

abbrev one_row_words : Memory
one_row_words = replace_table one_row one_row 28 (λ a. 0)

one_row-found : is_default_table one_row 28 one_row_words ≡ true
one_row-found = refl

gpu_freq_cvb_table-row_example :
    ((gpu_freq_cvb_table one_row one_row [] 0 settings 28 one_row_words).1 36
        + 1000 * 10 * times_lowered 0 0)
      % 2 ^ 32
    ≡ first_volt 0 (replace_table one_row one_row 28 one_row_words 36) % 2 ^ 32
gpu_freq_cvb_table-row_example =
    gpu_freq_cvb_table-row one_row one_row [] 0 settings 28 one_row_words 0 one_row-found
      (omega arith)

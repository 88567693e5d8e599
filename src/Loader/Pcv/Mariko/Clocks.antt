-- ===== src/Loader/Pcv/Mariko/Clocks.antt =====
-- oc/pcv/pcv_mariko.cpp: the patches of the GPU and memory clocks for Mariko, less the memory
-- timings.
use horizon_oc.Prelude.{
  ◌==◌, leb, ltb, lt_ℤ, pos, signed32, if◌then◌else◌, u8, u32, ℕ, ◌+◌, ◌-◌, ◌*◌, ◌/◌, ◌%◌, ◌^◌,
  Bool, List, [], ◌∷◌, ◌&&◌, not,
}
use horizon_oc.Loader.Memory.{Memory, patch_offset, patch_all, matches}
use horizon_oc.Loader.Customize.{CustomizeTable}
use horizon_oc.Loader.Patcher.{
  PatcherFn, success, invalid_gpu_freq_max_pattern, invalid_gpu_pll_entry, invalid_dvb_table,
}
use horizon_oc.Loader.Pcv.Tables.{checked_last_freq, mariko_gpu_table}
use horizon_oc.Loader.Pcv.Asm.{
  asm_compare_no_rd, asm_get_rd, asm_set_rd, asm_set_imm16, asm_get_imm16,
}

abbrev pub gpu_asm_mov : ℕ
gpu_asm_mov = 0x52820000

abbrev pub gpu_asm_movk : ℕ
gpu_asm_movk = 0x72A001C0

-- `GpuMaxClockPatternFn`.
abbrev pub gpu_max_clock_pattern_fn : ℕ → Memory → Bool
gpu_max_clock_pattern_fn ptr m = asm_compare_no_rd (m ptr) gpu_asm_mov

-- The conditions of `GpuFreqMaxAsm`: the pattern, the same register, and the stock limit 921600.
abbrev pub is_gpu_limit : ℕ → Memory → Bool
is_gpu_limit ptr m =
    asm_compare_no_rd (m ptr) gpu_asm_mov
    && asm_compare_no_rd (m (ptr + 1)) gpu_asm_movk
    && (u8 (asm_get_rd (m ptr)) == asm_get_rd (m (ptr + 1)))
    && (asm_get_imm16 (m ptr) == 921600 % 2 ^ 16)
    && (asm_get_imm16 (m (ptr + 1)) == 921600 / 2 ^ 16)

-- The two instructions that `GpuFreqMaxAsm` writes, for a clock in kHz and a register.
unfoldable pub patch_gpu_limit : ℕ → ℕ → ℕ → Memory → Memory
patch_gpu_limit max_clock rd ptr m =
    patch_offset (ptr + 1) (asm_set_rd (asm_set_imm16 gpu_asm_movk (max_clock / 2 ^ 16)) rd)
      (patch_offset ptr (asm_set_rd (asm_set_imm16 gpu_asm_mov max_clock) rd) m)

-- `GpuFreqMaxAsm`; the clock is the last frequency of the GPU table that is in use.
unfoldable pub gpu_freq_max_asm : ℕ → PatcherFn
unfolding patch_gpu_limit
gpu_freq_max_asm max_clock ptr m =
    if not (is_gpu_limit ptr m)
    then (invalid_gpu_freq_max_pattern, m)
    else (success, patch_gpu_limit max_clock (u8 (asm_get_rd (m ptr))) ptr m)

-- The patch with the clock of Mariko.
unfoldable pub mariko_gpu_freq_max_asm : CustomizeTable → PatcherFn
unfolding gpu_freq_max_asm
mariko_gpu_freq_max_asm c = gpu_freq_max_asm (checked_last_freq (mariko_gpu_table c))

-- The 17 words of a `clk_pll_param` after `freq`, all 0.
abbrev pub no_pll_params : List ℕ
no_pll_params = 0 ∷ 0 ∷ 0 ∷ 0 ∷ 0 ∷ 0 ∷ 0 ∷ 0 ∷ 0 ∷ 0 ∷ 0 ∷ 0 ∷ 0 ∷ 0 ∷ 0 ∷ 0 ∷ 0 ∷ []

-- `GpuFreqPllMax`.
unfoldable pub gpu_freq_pll_max : PatcherFn
gpu_freq_pll_max ptr m =
    if not (matches m (ptr + 1) no_pll_params)
    then (invalid_gpu_pll_entry, m)
    else (success, patch_offset ptr (u32 (m ptr * 2)) m)

-- `GpuFreqPllLimit`.
unfoldable pub gpu_freq_pll_limit : PatcherFn
gpu_freq_pll_limit ptr m =
    let prev_freq = m (ptr - 1) in
    if not (prev_freq == 128000) && not (prev_freq == 1300000) && not (prev_freq == 76800)
    then (invalid_gpu_pll_entry, m)
    else (success, patch_offset ptr 3600000 m)

-- `EmcDvbTableDefault`: rows of a frequency, of 64 bits, and four voltages.
abbrev pub emc_dvb_table_default : List ℕ
emc_dvb_table_default =
    204000 ∷ 0 ∷ 637 ∷ 637 ∷ 637 ∷ 0 ∷ 408000 ∷ 0 ∷ 637 ∷ 637 ∷ 637 ∷ 0 ∷ 800000 ∷ 0 ∷ 637 ∷ 637
    ∷ 637 ∷ 0 ∷ 1065600 ∷ 0 ∷ 637 ∷ 637 ∷ 637 ∷ 0 ∷ 1331200 ∷ 0 ∷ 650 ∷ 637 ∷ 637 ∷ 0 ∷ 1600000 ∷ 0
    ∷ 675 ∷ 650 ∷ 637 ∷ 0 ∷ []

-- `std::min(volt + voltAdd, cap)` on `int`.
abbrev pub dvb_volt : CustomizeTable → ℕ → ℕ → ℕ
dvb_volt c volt cap =
    let sum = u32 (volt + 25 * c.emc_dvb_shift) in
    if lt_ℤ (pos cap) (signed32 sum) then cap else sum

-- The voltages of the row for a memory clock from 1862.4 MHz on.
abbrev pub dvb_volts : CustomizeTable → ℕ × (ℕ × ℕ)
dvb_volts c =
    let clock = c.mariko_emc_max_clock in
    let shifted : ℕ → ℕ → ℕ → ℕ × (ℕ × ℕ) = λ zeroth first second.
      (dvb_volt c zeroth 1050, (dvb_volt c first 1025, dvb_volt c second 1000)) in
    if ltb clock 2131200
    then (700, (675, 650))
    else if ltb clock 2400000
    then (725, (700, 675))
    else if ltb clock 2665600
    then shifted 750 725 700
    else if ltb clock 2931200
    then shifted 775 750 725
    else if ltb clock 3200000
    then shifted 800 775 750
    else shifted 800 800 775

-- The row that is written after the table.
abbrev pub dvb_row : CustomizeTable → ℕ → Memory → List (ℕ × ℕ)
dvb_row c ptr m =
    let (zeroth, (first, second)) = dvb_volts c in
    if ltb c.mariko_emc_max_clock 1862400
    then (0, m ptr)
      ∷ (1, m (ptr + 1))
      ∷ (2, m (ptr + 2))
      ∷ (3, m (ptr + 3))
      ∷ (4, m (ptr + 4))
      ∷ (5, m (ptr + 5))
      ∷ []
    else (0, c.mariko_emc_max_clock) ∷ (1, 0) ∷ (2, zeroth) ∷ (3, first) ∷ (4, second) ∷ (5, 0) ∷ []

-- `MemFreqDvbTable`: the pointer is the last row of the table, and the new row follows it.
unfoldable pub mem_freq_dvb_table : CustomizeTable → PatcherFn
mem_freq_dvb_table c ptr m =
    let written = patch_all (dvb_row c ptr m) (ptr + 6) m in
    if not (matches m (ptr + 6 - 36) emc_dvb_table_default)
    then (invalid_dvb_table, m)
    else if leb c.mariko_emc_max_clock 1600000
    then (success, m)
    else (success, patch_offset (ptr + 7) 0 (patch_offset (ptr + 6) c.mariko_emc_max_clock written))

-- `MemFreqMax`.
unfoldable pub mem_freq_max : CustomizeTable → PatcherFn
mem_freq_max c ptr m =
    if leb c.mariko_emc_max_clock 1600000
    then (success, m)
    else (success, patch_offset ptr c.mariko_emc_max_clock m)

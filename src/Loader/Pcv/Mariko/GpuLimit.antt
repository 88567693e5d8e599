-- ===== src/Loader/Pcv/Mariko/GpuLimit.antt =====
-- The limit of the GPU clock in the code of `pcv`.
use horizon_oc.Prelude.{
  true, false, ◌==◌, ==_iff, ℕ, ◌+◌, ◌*◌, ◌/◌, ◌^◌, ◌<◌, ◌≡◌, ◌≢◌, refl, arith, u8,
}
use horizon_oc.Loader.Memory.{Memory}
use horizon_oc.Loader.Patcher.{success, invalid_gpu_freq_max_pattern}
use horizon_oc.Loader.Pcv.Asm.{asm_get_rd, asm_get_imm16}
use horizon_oc.Loader.Pcv.Asm.Fields.{asm_get-set, asm_opcode-set, asm_get_rd-lt}
use horizon_oc.Loader.Pcv.Mariko.Clocks.{
  gpu_asm_mov, gpu_asm_movk, is_gpu_limit, patch_gpu_limit, gpu_freq_max_asm,
}

-- The clock that a pair of instructions loads: the immediates of `MOV` and of `MOVK` shifted by 16.
abbrev pub loaded_clock : ℕ → Memory → ℕ
loaded_clock ptr m = asm_get_imm16 (m ptr) + 2 ^ 16 * asm_get_imm16 (m (ptr + 1))

stock-loaded : (ptr : ℕ) (m : Memory) → is_gpu_limit ptr m ≡ true → loaded_clock ptr m ≡ 921600
stock-loaded ptr m h = ground (arith, h)

-- The 11 upper digits of the instructions `MOVZ W` and `MOVK W` with a shift of 16: 0b01010010100 and
-- 0b01110010101.
abbrev pub movz : ℕ
movz = 660

abbrev pub movk_16 : ℕ
movk_16 = 917

-- What `patch_gpu_limit` leaves at the two instructions.
pub record Loads (max_clock rd ptr : ℕ) (m m' : Memory) : Type 0 where
  pub clock : loaded_clock ptr m' ≡ max_clock
  pub is_movz : m' ptr / 2 ^ 21 ≡ movz
  pub is_movk : m' (ptr + 1) / 2 ^ 21 ≡ movk_16
  pub first : asm_get_rd (m' ptr) ≡ rd
  pub second : asm_get_rd (m' (ptr + 1)) ≡ rd
  pub others : (a : ℕ) → a ≢ ptr → a ≢ ptr + 1 → m' a ≡ m a

patch_gpu_limit-Loads :
    (max_clock rd ptr : ℕ) (m : Memory)
    → max_clock < 2 ^ 32
    → rd < 32
    → Loads max_clock rd ptr m (patch_gpu_limit max_clock rd ptr m)
unfolding patch_gpu_limit
patch_gpu_limit-Loads max_clock rd ptr m small reg =
    let (rd1, imm1) = asm_get-set gpu_asm_mov 660 refl (omega arith) max_clock rd reg in
    let (rd2, imm2) = asm_get-set gpu_asm_movk 917 refl (omega arith) (max_clock / 2 ^ 16) rd reg in
    let there : (ptr == ptr + 1) ≡ false = ground arith in
    let here : (ptr == ptr) ≡ true = (==_iff ptr ptr).1 refl in
    let next : (ptr + 1 == ptr + 1) ≡ true = (==_iff (ptr + 1) (ptr + 1)).1 refl in
    record {
      clock = rw (there, here, next, imm1, imm2) (omega arith);
      is_movz =
          rw (there, here) (asm_opcode-set gpu_asm_mov 660 refl (omega arith) max_clock rd reg);
      is_movk =
          rw next (asm_opcode-set gpu_asm_movk 917 refl (omega arith) (max_clock / 2 ^ 16) rd reg);
      first = rw (there, here) rd1;
      second = rw next rd2;
      others = λ a h h'. ground (arith, h, h');
    }

-- On the two instructions that load the stock limit of 921600 kHz, `GpuFreqMaxAsm` succeeds and
-- leaves two instructions that load the given clock into the same register; nothing else changes.
-- On any other words it fails and changes nothing.
pub gpu_freq_max_asm-Loads :
    (max_clock ptr : ℕ) (m : Memory)
    → max_clock < 2 ^ 32
    → (is_gpu_limit ptr m ≡ true
        → (loaded_clock ptr m ≡ 921600)
          × ((gpu_freq_max_asm max_clock ptr m).0 ≡ success)
          × Loads max_clock (asm_get_rd (m ptr)) ptr m (gpu_freq_max_asm max_clock ptr m).1)
      × (is_gpu_limit ptr m ≡ false
          → gpu_freq_max_asm max_clock ptr m ≡ (invalid_gpu_freq_max_pattern, m))
unfolding gpu_freq_max_asm
gpu_freq_max_asm-Loads max_clock ptr m small = (
  λ h.
      let lt = asm_get_rd-lt (m ptr) in
      let byte : u8 (asm_get_rd (m ptr)) ≡ asm_get_rd (m ptr) = omega (arith, lt) in
      (
        stock-loaded ptr m h,
        rw h refl,
        rw (h, byte) (patch_gpu_limit-Loads max_clock (asm_get_rd (m ptr)) ptr m small lt),
      ),
  λ h. rw h refl,
)

-- ===== src/Loader/Pcv/Asm/Fields.antt =====
-- What the fields of an instruction read after they have been set.
use horizon_oc.Prelude.{ℕ, ◌+◌, ◌*◌, ◌/◌, ◌%◌, ◌^◌, ◌<◌, ◌≡◌, ap, bit_and, bit_or, arith}
use horizon_oc.Prelude.Bits.{
  bit_and-halves, bit_and_zero, bit_and_all, bit_and_low, bit_or_low, LowZero-mul,
}
use horizon_oc.Loader.Pcv.Asm.{asm_get_rd, asm_set_rd, asm_set_imm16, asm_get_imm16}

-- The mask of a word that keeps all but the register.
clear_rd : (w : ℕ) → w < 2 ^ 27 → bit_and (w * 32) 0xFFFFFFE0 ≡ w * 32
clear_rd w h = omega (
  arith,
  bit_and-halves (w * 32) 0xFFFFFFE0,
  bit_and-halves (w * 32 / 2) 0x7FFFFFF0,
  bit_and-halves (w * 32 / 2 / 2) 0x3FFFFFF8,
  bit_and-halves (w * 32 / 2 / 2 / 2) 0x1FFFFFFC,
  bit_and-halves (w * 32 / 2 / 2 / 2 / 2) 0xFFFFFFE,
  bit_and_all 27 w h,
  ap (λ x. bit_and x 0x7FFFFFF) (w_back w),
)
  where
    w_back : (w : ℕ) → w * 32 / 2 / 2 / 2 / 2 / 2 ≡ w
    w_back w = omega arith

pub asm_get_rd-lt : (ins : ℕ) → asm_get_rd ins < 32
asm_get_rd-lt ins = omega (
  arith,
  bit_and-halves ins 31,
  bit_and-halves (ins / 2) 15,
  bit_and-halves (ins / 2 / 2) 7,
  bit_and-halves (ins / 2 / 2 / 2) 3,
  bit_and-halves (ins / 2 / 2 / 2 / 2) 1,
  bit_and_zero (ins / 2 / 2 / 2 / 2 / 2),
)

-- A pattern whose immediate and register are 0 after the mask, with both set.
module _ (pattern upper : ℕ) (masked : bit_and pattern 0xFFE0001F ≡ upper * 2 ^ 21)
    (small : upper < 2 ^ 11) where
  asm_set_word :
      (imm rd : ℕ)
      → rd < 32
      → asm_set_rd (asm_set_imm16 pattern imm) rd ≡ (upper * 2 ^ 16 + imm % 2 ^ 16) * 32 + rd
  asm_set_word imm rd h =
      let v = imm % 2 ^ 16 in
      let imm_is : bit_and v 0xFFFF ≡ v = bit_and_all 16 v (omega arith) in
      let rd_is : bit_and rd 0x1F ≡ rd = bit_and_all 5 rd (omega arith) in
      let set : bit_or (upper * 2 ^ 21) (v * 2 ^ 5) ≡ upper * 2 ^ 21 + v * 2 ^ 5 =
        bit_or_low 21 (upper * 2 ^ 21) (v * 2 ^ 5) (LowZero-mul 21 upper) (omega arith) in
      let word : upper * 2 ^ 21 + v * 2 ^ 5 ≡ (upper * 2 ^ 16 + v) * 32 = omega arith in
      rw (masked, imm_is, set, word, clear_rd (upper * 2 ^ 16 + v) (omega arith), rd_is)
        (bit_or_low 5 ((upper * 2 ^ 16 + v) * 32) rd (LowZero-mul 5 (upper * 2 ^ 16 + v))
          (omega arith))

  -- The digits of the operation stay.
  pub asm_opcode-set :
      (imm rd : ℕ) → rd < 32 → asm_set_rd (asm_set_imm16 pattern imm) rd / 2 ^ 21 ≡ upper
  asm_opcode-set imm rd h = rw (asm_set_word imm rd h) (omega arith)

  -- The register and the immediate read as they were set.
  pub asm_get-set :
      (imm rd : ℕ)
      → rd < 32
      → (asm_get_rd (asm_set_rd (asm_set_imm16 pattern imm) rd) ≡ rd)
        × (asm_get_imm16 (asm_set_rd (asm_set_imm16 pattern imm) rd) ≡ imm % 2 ^ 16)
  asm_get-set imm rd h =
      let w = upper * 2 ^ 16 + imm % 2 ^ 16 in
      let shifted : (w * 32 + rd) / 2 ^ 5 ≡ w = omega arith in
      rw (asm_set_word imm rd h, shifted)
        (
          bit_and_low 5 (w * 32) rd (LowZero-mul 5 w) (omega arith),
          rw (bit_and_low 16 (upper * 2 ^ 16) (imm % 2 ^ 16) (LowZero-mul 16 upper) (omega arith))
              (omega arith),
        )

-- ===== src/Loader/Pcv/Asm.antt =====
-- oc/pcv/pcv_asm.hpp: the fields of a `MOV` with a 16-bit immediate.
pub mod Fields
use horizon_oc.Prelude.{◌==◌, ℕ, ◌*◌, ◌/◌, ◌%◌, ◌^◌, bit_and, bit_or, bit_xor, Bool}

abbrev pub asm_compare_no_rd : ℕ → ℕ → Bool
asm_compare_no_rd ins1 ins2 = bit_xor ins1 ins2 / 2 ^ 5 == 0

abbrev pub asm_get_rd : ℕ → ℕ
asm_get_rd ins = bit_and ins 31

abbrev pub asm_set_rd : ℕ → ℕ → ℕ
asm_set_rd ins rd = bit_or (bit_and ins 0xFFFFFFE0) (bit_and rd 0x1F)

-- The immediate is a `u16`.
abbrev pub asm_set_imm16 : ℕ → ℕ → ℕ
asm_set_imm16 ins imm = bit_or (bit_and ins 0xFFE0001F) (bit_and (imm % 2 ^ 16) 0xFFFF * 2 ^ 5)

abbrev pub asm_get_imm16 : ℕ → ℕ
asm_get_imm16 ins = bit_and (ins / 2 ^ 5) 0xFFFF % 2 ^ 16

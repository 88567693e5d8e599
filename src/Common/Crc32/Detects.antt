-- ===== src/Common/Crc32/Detects.antt =====
-- The checksum tells buffers apart that differ in one byte.
use horizon_oc.Prelude.{
  u32_max, ℕ, zero, suc, ◌/◌, ◌%◌, ◌^◌, ◌<◌, bit_xor, ◌≡◌, ◌≢◌, ◌⊎◌, inl, inr, refl, sym, ◌∙◌, List,
  [], ◌∷◌, ◌++◌, arith, All,
}
use horizon_oc.Prelude.Bits.{
  bit_and_one, bit_xor_injective, bit_xor_comm, bit_xor_lt, bit_xor_ge, bit_xor_zero,
}
use horizon_oc.Common.Crc32.{
  polynomial, crc_bit, crc_bits, crc_byte, crc_loop, crc_loop-append, crc32,
}

pub even_or_odd : (c : ℕ) → (c % 2 ≡ 0) ⊎ (c % 2 ≡ 1)
even_or_odd c = omega arith

pub crc_bit-even : (c : ℕ) → c % 2 ≡ 0 → crc_bit c ≡ c / 2
unfolding crc_bit
crc_bit-even c h = rw (bit_and_one c, h) (bit_xor_zero (c / 2))

pub crc_bit-odd : (c : ℕ) → c % 2 ≡ 1 → crc_bit c ≡ bit_xor (c / 2) polynomial
unfolding crc_bit
crc_bit-odd c h = rw (bit_and_one c, h) refl

-- One bit of the checksum can be taken back: the polynomial has the highest digit.
crc_bit-injective : (c d : ℕ) → c < 2 ^ 32 → d < 2 ^ 32 → crc_bit c ≡ crc_bit d → c ≡ d
crc_bit-injective c d hc hd e = elim (even_or_odd c) [
  | inl a ↦ elim (even_or_odd d) [
    | inl b ↦ omega (arith, e, crc_bit-even c a, crc_bit-even d b)
    | inr b ↦ absurd (
        omega (
          arith,
          e,
          crc_bit-even c a,
          crc_bit-odd d b,
          bit_xor_ge 31 (d / 2) polynomial (omega arith) (omega arith),
        ))
  ]
  | inr a ↦ elim (even_or_odd d) [
    | inl b ↦ absurd (
        omega (
          arith,
          e,
          crc_bit-even d b,
          crc_bit-odd c a,
          bit_xor_ge 31 (c / 2) polynomial (omega arith) (omega arith),
        ))
    | inr b ↦
        let same : bit_xor (c / 2) polynomial ≡ bit_xor (d / 2) polynomial =
          sym (crc_bit-odd c a) ∙ e ∙ crc_bit-odd d b in
        omega (arith, bit_xor_injective (c / 2) (d / 2) polynomial same)
  ]
]

crc_bit-lt : (c : ℕ) → c < 2 ^ 32 → crc_bit c < 2 ^ 32
crc_bit-lt c h = elim (even_or_odd c) [
  | inl a ↦ omega (arith, crc_bit-even c a)
  | inr a ↦
      omega (arith, crc_bit-odd c a, bit_xor_lt 32 (c / 2) polynomial (omega arith) (omega arith))
]

crc_bits-lt : (n c : ℕ) → c < 2 ^ 32 → crc_bits n c < 2 ^ 32
unfolding crc_bits
crc_bits-lt zero c h = h
crc_bits-lt (suc n) c h = crc_bits-lt n (crc_bit c) (crc_bit-lt c h)

crc_bits-injective : (n c d : ℕ) → c < 2 ^ 32 → d < 2 ^ 32 → crc_bits n c ≡ crc_bits n d → c ≡ d
unfolding crc_bits
crc_bits-injective zero c d hc hd e = e
crc_bits-injective (suc n) c d hc hd e =
    crc_bit-injective c d hc hd
      (crc_bits-injective n (crc_bit c) (crc_bit d) (crc_bit-lt c hc) (crc_bit-lt d hd) e)

module _ (b : ℕ) (small : b < 256) where
  crc_byte-lt : (c : ℕ) → c < 2 ^ 32 → crc_byte c b < 2 ^ 32
  unfolding crc_byte
  crc_byte-lt c h = crc_bits-lt 8 (bit_xor c b) (bit_xor_lt 32 c b h (omega arith))

  crc_byte-injective : (c d : ℕ) → c < 2 ^ 32 → d < 2 ^ 32 → crc_byte c b ≡ crc_byte d b → c ≡ d
  unfolding crc_byte
  crc_byte-injective c d hc hd e = bit_xor_injective c d b (
      crc_bits-injective 8 (bit_xor c b) (bit_xor d b) (bit_xor_lt 32 c b hc (omega arith))
        (bit_xor_lt 32 d b hd (omega arith)) e)

crc_byte-right : (c x y : ℕ) → c < 2 ^ 32 → x < 256 → y < 256 → crc_byte c x ≡ crc_byte c y → x ≡ y
unfolding crc_byte
crc_byte-right c x y hc hx hy e = bit_xor_injective x y c (
    bit_xor_comm x c
    ∙ crc_bits-injective 8 (bit_xor c x) (bit_xor c y) (bit_xor_lt 32 c x hc (omega arith))
        (bit_xor_lt 32 c y hc (omega arith)) e
    ∙ bit_xor_comm c y)

crc_loop-lt :
    (bytes : List ℕ) (c : ℕ) → All (λ b. b < 256) bytes → c < 2 ^ 32 → crc_loop c bytes < 2 ^ 32
unfolding crc_loop
crc_loop-lt [] c all h = h
crc_loop-lt (b ∷ bytes) c (small, all) h =
    crc_loop-lt bytes (crc_byte c b) all (crc_byte-lt b small c h)

crc_loop-injective :
    (bytes : List ℕ) (c d : ℕ)
    → All (λ b. b < 256) bytes
    → c < 2 ^ 32
    → d < 2 ^ 32
    → crc_loop c bytes ≡ crc_loop d bytes
    → c ≡ d
unfolding crc_loop
crc_loop-injective [] c d all hc hd e = e
crc_loop-injective (b ∷ bytes) c d (small, all) hc hd e = crc_byte-injective b small c d hc hd (
    crc_loop-injective bytes (crc_byte c b) (crc_byte d b) all (crc_byte-lt b small c hc)
      (crc_byte-lt b small d hd) e)

-- Two buffers of bytes that differ in one byte, wherever it stands, have different checksums.
pub crc32-detects :
    (before after : List ℕ) (x y : ℕ)
    → All (λ b. b < 256) before
    → All (λ b. b < 256) after
    → x < 256
    → y < 256
    → x ≢ y
    → crc32 (before ++ (x ∷ after)) ≢ crc32 (before ++ (y ∷ after))
unfolding crc32
crc32-detects before after x y bs cs hx hy other e =
    let c = crc_loop u32_max before in
    let hc = crc_loop-lt before u32_max bs (omega arith) in
    let at_x = crc_loop-append u32_max before (x ∷ after) in
    let at_y = crc_loop-append u32_max before (y ∷ after) in
    let lt_x = crc_loop-lt after (crc_byte c x) cs (crc_byte-lt x hx c hc) in
    let lt_y = crc_loop-lt after (crc_byte c y) cs (crc_byte-lt y hy c hc) in
    let same : crc_loop (crc_byte c x) after ≡ crc_loop (crc_byte c y) after =
      unfold crc_loop in omega (arith, e, at_x, at_y, lt_x, lt_y) in
    other (
      crc_byte-right c x y hc hx hy (
        crc_loop-injective after (crc_byte c x) (crc_byte c y) cs (crc_byte-lt x hx c hc)
          (crc_byte-lt y hy c hc) same))

-- ===== src/Soctherm/Calibration/Rounding.antt =====
-- How the division of the calibration rounds.
use horizon_oc.Prelude.{
  ℕ, zero, suc, ◌+◌, ◌-◌, ◌*◌, ◌/◌, ◌^◌, ◌≤◌, ◌<◌, ◌≡◌, refl, ℤ, pos, negsuc, neg_ℤ, shr_ℤ, ◌+ℤ◌,
  ◌*ℤ◌, arith,
}
use native.Mathlib.Nat.{div-add-mod, mod-lt, mul-le-mul_left}
use horizon_oc.Soctherm.Calibration.{wrap32, div64_s64_precise}

-- A quotient that is rounded down, where one of a negative number may come out too high, but by no
-- more than 1/65536.
abbrev pub IsQuotient : ℤ → ℕ → ℤ → Type 0
IsQuotient (pos n) b (pos r) = (r * b ≤ n) × (n < (r + 1) * b)
IsQuotient (pos n) b (negsuc r) = ⊥
IsQuotient (negsuc n) b (pos r) = (r ≡ 0) × (suc n * 65536 ≤ b)
IsQuotient (negsuc n) b (negsuc r) = (r * b < suc n) × (suc n * 65536 ≤ (suc r * 65536 + 1) * b)

-- A quotient lies below the number, and the next one above.
div_bounds : (x d : ℕ) → 0 < d → (d * (x / d) ≤ x) × (x < d * (x / d) + d)
div_bounds x d h = omega (arith, div-add-mod x d, mod-lt x h)

pos-*ℤ-pos : (m n : ℕ) → pos m *ℤ pos n ≡ pos (m * n)
unfolding ◌*ℤ◌
pos-*ℤ-pos m n = ground arith

negsuc-*ℤ-pos : (m n : ℕ) → negsuc m *ℤ pos (suc n) ≡ negsuc (suc m * suc n - 1)
unfolding ◌*ℤ◌
negsuc-*ℤ-pos m n = ground arith

-- The numbers that are divided, and the one that divides.
doubled_pos : (n : ℕ) → pos n *ℤ pos 65536 *ℤ pos 2 +ℤ pos 1 ≡ pos (n * 131072 + 1)
unfolding ◌+ℤ◌
doubled_pos n = rw (pos-*ℤ-pos n 65536, pos-*ℤ-pos (n * 65536) 2) (ground arith)

doubled_neg : (n : ℕ) → negsuc n *ℤ pos 65536 *ℤ pos 2 +ℤ pos 1 ≡ negsuc (suc n * 131072 - 2)
unfolding ◌+ℤ◌
doubled_neg n = rw (negsuc-*ℤ-pos n 65535, negsuc-*ℤ-pos (suc n * 65536 - 1) 1) (ground arith)

positive : (n b : ℕ) → 0 < b → IsQuotient (pos n) b (pos ((n * 131072 + 1) / (2 * b) / 65536))
positive n b h =
    let q = (n * 131072 + 1) / (2 * b) in
    let r = q / 65536 in
    let (lo, hi) = div_bounds (n * 131072 + 1) (2 * b) (omega arith) in
    let at_most : b * (65536 * r) ≤ b * q = mul-le-mul_left b (omega arith) in
    let next : b * (q + 1) ≤ b * (65536 * (r + 1)) = mul-le-mul_left b (omega arith) in
    (grind (arith, lo, at_most), grind (arith, hi, next))

negative :
    (n b q : ℕ)
    → 0 < b
    → 2 * b * q ≤ suc n * 131072 - 1
    → suc n * 131072 - 1 < 2 * b * q + 2 * b
    → IsQuotient (negsuc n) b (shr_ℤ (neg_ℤ (pos q)) 16)
negative n b zero h lo hi = (refl, omega arith)
negative n b (suc p) h lo hi =
    let r = p / 65536 in
    let at_most : b * (65536 * r) ≤ b * p = mul-le-mul_left b (omega arith) in
    let next : b * (p + 2) ≤ b * (65536 * suc r + 1) = mul-le-mul_left b (omega arith) in
    (grind (arith, lo, at_most), grind (arith, hi, next))

wrap32-small : (n : ℕ) → n < 2 ^ 31 → wrap32 (pos n) ≡ pos n
wrap32-small n h = ground arith

-- For a positive divisor below 2^30 `div64_s64_precise` rounds down; a negative quotient may come
-- out too high by no more than 1/65536.
pub div64_s64_precise-IsQuotient :
    (a : ℤ) (b : ℕ) → 0 < b → b < 2 ^ 30 → IsQuotient a b (div64_s64_precise a (pos b))
unfolding div64_s64_precise
div64_s64_precise-IsQuotient (pos n) b h small =
    rw (doubled_pos n, pos-*ℤ-pos 2 b, wrap32-small (2 * b) (omega arith)) (positive n b h)
div64_s64_precise-IsQuotient (negsuc n) b h small =
    let x = suc (suc n * 131072 - 2) in
    let (lo, hi) = div_bounds x (2 * b) (omega arith) in
    rw (doubled_neg n, pos-*ℤ-pos 2 b, wrap32-small (2 * b) (omega arith))
      (negative n b (x / (2 * b)) h (omega (arith, lo)) (omega (arith, hi)))

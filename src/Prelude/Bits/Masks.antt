-- ===== src/Prelude/Bits/Masks.antt =====
-- Masks: what a field of a register holds after other fields have been written.
use Prim.Native.Nat.{
  ℕ, zero, suc, ◌+◌, ◌-◌, ◌*◌, ◌/◌, ◌%◌, ◌^◌, ◌≤◌, ◌<◌, min, max, bit_and, bit_or,
}
use mathlib.Core.Path.{◌≡◌, refl, sym, ap, ◌∙◌}
use native.Mathlib.Omega.{arith}
use native.Mathlib.Nat.{
  one-le-pow, mod-lt, div-add-mod, mul_comm, mul_left_comm, add-mul-mod_self_right, mod-eq_of_lt,
  div-div-eq-div-mul,
}
use horizon_oc.Prelude.Bits.{
  bit_or_zero, bit_and-halves, bit_or-halves, bit_and_zero, zero-bit_and, zero-bit_or,
}

half-bit_and : (a b : ℕ) → bit_and a b / 2 ≡ bit_and (a / 2) (b / 2)
half-bit_and a b = ground (arith, bit_and-halves a b)

low-bit_and : (a b : ℕ) → bit_and a b % 2 ≡ min (a % 2) (b % 2)
low-bit_and a b = ground (arith, bit_and-halves a b)

half-bit_or : (a b : ℕ) → bit_or a b / 2 ≡ bit_or (a / 2) (b / 2)
half-bit_or a b = ground (arith, bit_or-halves a b)

low-bit_or : (a b : ℕ) → bit_or a b % 2 ≡ max (a % 2) (b % 2)
low-bit_or a b = ground (arith, bit_or-halves a b)

-- A remainder by its half and its lowest digit.
double-mod : (m a : ℕ) → 0 < m → a % (2 * m) ≡ 2 * (a / 2 % m) + a % 2
double-mod m a h =
    let q = a / 2 / m in
    let r = a / 2 % m in
    let x = 2 * r + a % 2 in
    let small = mod-lt (a / 2) h in
    let parts : x + q * (2 * m) ≡ a =
      omega (arith, ap (λ (t : ℕ). 2 * t) (div-add-mod (a / 2) m), mul_comm m q) in
    sym (ap (λ (t : ℕ). t % (2 * m)) parts)
    ∙ add-mul-mod_self_right x q (2 * m)
    ∙ mod-eq_of_lt {n = x} {m = 2 * m} (omega arith)

-- The `w` lowest digits.
pub bit_and-ones : (w a : ℕ) → bit_and a (2 ^ w - 1) ≡ a % 2 ^ w
bit_and-ones zero a = bit_and_zero a ∙ omega arith
bit_and-ones (suc w) a =
    let positive = one-le-pow w 2 (omega arith) in
    let half : (2 ^ suc w - 1) / 2 ≡ 2 ^ w - 1 = omega arith in
    let double : 2 ^ suc w ≡ 2 * 2 ^ w = omega arith in
    bit_and-halves a (2 ^ suc w - 1)
    ∙ rw (half, bit_and-ones w (a / 2), double, double-mod (2 ^ w) a (omega arith)) (omega arith)

-- The field of `w` digits above the `k` lowest.
pub bit_and-field : (k w a : ℕ) → bit_and a ((2 ^ w - 1) * 2 ^ k) ≡ a / 2 ^ k % 2 ^ w * 2 ^ k
bit_and-field zero w a =
    let one : (2 ^ w - 1) * 2 ^ 0 ≡ 2 ^ w - 1 = omega arith in
    let whole : a / 2 ^ 0 ≡ a = omega arith in rw (one, whole) (bit_and-ones w a ∙ omega arith)
bit_and-field (suc k) w a =
    let mask = (2 ^ w - 1) * 2 ^ k in
    let double : 2 ^ suc k ≡ 2 * 2 ^ k = omega arith in
    let shifted : (2 ^ w - 1) * (2 * 2 ^ k) ≡ 2 * mask = mul_left_comm (2 ^ w - 1) 2 (2 ^ k) in
    let half : 2 * mask / 2 ≡ mask = omega arith in
    rw (double, shifted)
      (bit_and-halves a (2 * mask)
        ∙ rw (half, bit_and-field k w (a / 2), div-div-eq-div-mul a 2 (2 ^ k))
            (omega (arith, mul_left_comm (a / (2 * 2 ^ k) % 2 ^ w) 2 (2 ^ k))))

pub bit_and_assoc : (a b c : ℕ) → bit_and (bit_and a b) c ≡ bit_and a (bit_and b c)
bit_and_assoc a b c = halving a a b c (omega arith)
  where
    halving : (n a b c : ℕ) → a ≤ n → bit_and (bit_and a b) c ≡ bit_and a (bit_and b c)
    halving n zero b c h = rw (zero-bit_and b, zero-bit_and c, zero-bit_and (bit_and b c)) refl
    halving zero (suc a) b c h = absurd (omega arith)
    halving (suc n) (suc a) b c h =
        bit_and-halves (bit_and (suc a) b) c
        ∙ rw
            (
              half-bit_and (suc a) b,
              low-bit_and (suc a) b,
              halving n (suc a / 2) (b / 2) (c / 2) (omega arith),
            )
            (omega (
              arith,
              bit_and-halves (suc a) (bit_and b c),
              low-bit_and b c,
              ap (bit_and (suc a / 2)) (half-bit_and b c),
            ))

pub bit_and-bit_or : (a b c : ℕ) → bit_and (bit_or a b) c ≡ bit_or (bit_and a c) (bit_and b c)
bit_and-bit_or a b c = halving a a b c (omega arith)
  where
    halving : (n a b c : ℕ) → a ≤ n → bit_and (bit_or a b) c ≡ bit_or (bit_and a c) (bit_and b c)
    halving n zero b c h = rw (zero-bit_or b, zero-bit_and c, zero-bit_or (bit_and b c)) refl
    halving zero (suc a) b c h = absurd (omega arith)
    halving (suc n) (suc a) b c h =
        let ih = halving n (suc a / 2) (b / 2) (c / 2) (omega arith) in
        bit_and-halves (bit_or (suc a) b) c
        ∙ rw (half-bit_or (suc a) b, low-bit_or (suc a) b, ih)
            (omega (
              arith,
              bit_or-halves (bit_and (suc a) c) (bit_and b c),
              low-bit_and (suc a) c,
              low-bit_and b c,
              ap (bit_or (bit_and (suc a) c / 2)) (half-bit_and b c),
              ap (λ (t : ℕ). bit_or t (bit_and (b / 2) (c / 2))) (half-bit_and (suc a) c),
            ))

-- A field outside what is kept of a register holds what is written.
pub field-write :
    (old keep new mask : ℕ)
    → bit_and keep mask ≡ 0
    → bit_and (bit_or (bit_and old keep) new) mask ≡ bit_and new mask
field-write old keep new mask h =
    bit_and-bit_or (bit_and old keep) new mask
    ∙ rw (bit_and_assoc old keep mask, h, bit_and_zero old) (zero-bit_or (bit_and new mask))

-- A field inside what is kept stays.
pub field-keep :
    (old keep new mask : ℕ)
    → bit_and keep mask ≡ mask
    → bit_and new mask ≡ 0
    → bit_and (bit_or (bit_and old keep) new) mask ≡ bit_and old mask
field-keep old keep new mask h none_new =
    bit_and-bit_or (bit_and old keep) new mask
    ∙ rw (bit_and_assoc old keep mask, h, none_new) (bit_or_zero (bit_and old mask))

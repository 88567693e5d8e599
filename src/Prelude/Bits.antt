-- ===== src/Prelude/Bits.antt =====
-- The bitwise operations at variables: each by its lowest digit, then masks, shifts and fields.
pub mod Masks
use Prim.Native.Nat.{
  ℕ, zero, suc, ◌+◌, ◌-◌, ◌*◌, ◌/◌, ◌%◌, ◌^◌, ◌≤◌, ◌<◌, min, max, differ, bit_and, bit_or, bit_xor,
  digits, bitwise, bit_and-bitwise, bit_or-bitwise, bit_xor-bitwise,
}
use mathlib.Core.Path.{◌≡◌, refl, sym, ap, ◌∙◌}
use native.Mathlib.Decide.{dec_lt}
use native.Mathlib.Omega.{arith}

-- The digits of `f`, by halves; past the first number's digits the result is `z`.
module _ (z : ℕ → ℕ) (f : ℕ → ℕ → ℕ) where
  -- One more round than the first number needs changes nothing.
  round_more : (n x y : ℕ) → x ≤ n → digits z f (suc n) x y ≡ digits z f n x y
  round_more n zero y h = elim n as (λ k. digits z f (suc k) 0 y ≡ digits z f k 0 y) [
    | zero ↦ refl
    | suc k ↦ refl
  ]
  round_more zero (suc x) y h = absurd (omega arith)
  round_more (suc n) (suc x) y h = omega (arith, round_more n (suc x / 2) (y / 2) (omega arith))

  rounds_more : (extra n x y : ℕ) → x ≤ n → digits z f (n + extra) x y ≡ digits z f n x y
  rounds_more zero n x y h = let same : n + 0 ≡ n = omega arith in rw same refl
  rounds_more (suc extra) n x y h =
      let next : n + suc extra ≡ suc (n + extra) = omega arith in
      rw next (round_more (n + extra) x y (omega arith) ∙ rounds_more extra n x y h)

  by_halves :
      ((y : ℕ) → z y ≡ 2 * z (y / 2) + f 0 (y % 2))
      → (x y : ℕ) → bitwise z f x y ≡ 2 * bitwise z f (x / 2) (y / 2) + f (x % 2) (y % 2)
  by_halves past zero y = past y
  by_halves past (suc x) y =
      let half = suc x / 2 in
      let all : half + (x - half) ≡ x = omega arith in
      omega (arith, rw all at (rounds_more (x - half) half half (y / 2) (omega arith)))

pub bit_and-halves : (x y : ℕ) → bit_and x y ≡ 2 * bit_and (x / 2) (y / 2) + min (x % 2) (y % 2)
bit_and-halves x y =
    rw (bit_and-bitwise x y, bit_and-bitwise (x / 2) (y / 2))
      (by_halves _ min (λ y. omega arith) x y)

pub bit_or-halves : (x y : ℕ) → bit_or x y ≡ 2 * bit_or (x / 2) (y / 2) + max (x % 2) (y % 2)
bit_or-halves x y =
    rw (bit_or-bitwise x y, bit_or-bitwise (x / 2) (y / 2)) (by_halves _ max (λ y. omega arith) x y)

pub bit_xor-halves : (x y : ℕ) → bit_xor x y ≡ 2 * bit_xor (x / 2) (y / 2) + differ (x % 2) (y % 2)
bit_xor-halves x y =
    rw (bit_xor-bitwise x y, bit_xor-bitwise (x / 2) (y / 2))
      (by_halves _ differ (λ y. omega arith) x y)

pub zero-bit_or : (b : ℕ) → bit_or 0 b ≡ b
zero-bit_or b = bit_or-bitwise 0 b

pub zero-bit_and : (b : ℕ) → bit_and 0 b ≡ 0
zero-bit_and b = bit_and-bitwise 0 b

pub zero-bit_xor : (b : ℕ) → bit_xor 0 b ≡ b
zero-bit_xor b = bit_xor-bitwise 0 b

pub bit_or_zero : (a : ℕ) → bit_or a 0 ≡ a
bit_or_zero a = halving a a (omega arith)
  where
    halving : (n a : ℕ) → a ≤ n → bit_or a 0 ≡ a
    halving n zero h = refl
    halving zero (suc a) h = absurd (omega arith)
    halving (suc n) (suc a) h =
        omega (arith, bit_or-halves (suc a) 0, halving n (suc a / 2) (omega arith))

differ_twice : (a b : ℕ) → a < 2 → b < 2 → differ (differ a b) b ≡ a
differ_twice zero zero h k = refl
differ_twice zero (suc zero) h k = refl
differ_twice (suc zero) zero h k = refl
differ_twice (suc zero) (suc zero) h k = refl
differ_twice (suc (suc a)) b h k = absurd (omega arith)
differ_twice a (suc (suc b)) h k = absurd (omega arith)

differ_small : (a b : ℕ) → a < 2 → b < 2 → differ a b < 2
differ_small zero zero h k = omega arith
differ_small zero (suc zero) h k = omega arith
differ_small (suc zero) zero h k = omega arith
differ_small (suc zero) (suc zero) h k = omega arith
differ_small (suc (suc a)) b h k = absurd (omega arith)
differ_small a (suc (suc b)) h k = absurd (omega arith)

differ_zero : (a : ℕ) → differ a 0 ≡ a
differ_zero zero = refl
differ_zero (suc a) = refl

-- The digits above the lowest.
pub half-bit_xor : (a b : ℕ) → bit_xor a b / 2 ≡ bit_xor (a / 2) (b / 2)
half-bit_xor a b =
    omega (arith, bit_xor-halves a b, differ_small (a % 2) (b % 2) (omega arith) (omega arith))

pub bit_xor_zero : (a : ℕ) → bit_xor a 0 ≡ a
bit_xor_zero a = halving a a (omega arith)
  where
    halving : (n a : ℕ) → a ≤ n → bit_xor a 0 ≡ a
    halving n zero h = refl
    halving zero (suc a) h = absurd (omega arith)
    halving (suc n) (suc a) h =
        let digit = differ_zero (suc a % 2) in
        omega (arith, bit_xor-halves (suc a) 0, halving n (suc a / 2) (omega arith), digit)

-- A number without its `k` lowest digits.
abbrev pub halve : ℕ → ℕ → ℕ
halve zero a = a
halve (suc k) a = halve k (a / 2)

halve_small : (k a : ℕ) → a < 2 ^ k → halve k a ≡ 0
halve_small zero a h = omega arith
halve_small (suc k) a h = halve_small k (a / 2) (omega arith)

halve_large : (k a : ℕ) → 2 ^ k ≤ a → 1 ≤ halve k a
halve_large zero a h = omega arith
halve_large (suc k) a h = halve_large k (a / 2) (omega arith)

halve-bit_xor : (k a b : ℕ) → halve k (bit_xor a b) ≡ bit_xor (halve k a) (halve k b)
halve-bit_xor zero a b = refl
halve-bit_xor (suc k) a b = rw (half-bit_xor a b) (halve-bit_xor k (a / 2) (b / 2))

-- `x ^ y ^ y` is `x`.
pub bit_xor_twice : (a b : ℕ) → bit_xor (bit_xor a b) b ≡ a
bit_xor_twice a b = halving (a + b) a b (omega arith) (omega arith)
  where
    halving : (n a b : ℕ) → a ≤ n → b ≤ n → bit_xor (bit_xor a b) b ≡ a
    halving zero zero zero h k = refl
    halving zero (suc a) b h k = absurd (omega arith)
    halving zero a (suc b) h k = absurd (omega arith)
    halving (suc n) a b h k =
        let small = differ_small (a % 2) (b % 2) (omega arith) (omega arith) in
        let digit : bit_xor a b % 2 ≡ differ (a % 2) (b % 2) =
          omega (arith, bit_xor-halves a b, small) in
        bit_xor-halves (bit_xor a b) b
        ∙ rw
            (
              half-bit_xor a b,
              digit,
              halving n (a / 2) (b / 2) (omega arith) (omega arith),
              differ_twice (a % 2) (b % 2) (omega arith) (omega arith),
            )
            (omega arith)

pub bit_xor_injective : (a b p : ℕ) → bit_xor a p ≡ bit_xor b p → a ≡ b
bit_xor_injective a b p e = sym (bit_xor_twice a p) ∙ ap (λ x. bit_xor x p) e ∙ bit_xor_twice b p

differ_comm : (a b : ℕ) → differ a b ≡ differ b a
differ_comm zero zero = refl
differ_comm zero (suc b) = refl
differ_comm (suc a) zero = refl
differ_comm (suc a) (suc b) = differ_comm a b

pub bit_xor_comm : (a b : ℕ) → bit_xor a b ≡ bit_xor b a
bit_xor_comm a b = halving (a + b) a b (omega arith) (omega arith)
  where
    halving : (n a b : ℕ) → a ≤ n → b ≤ n → bit_xor a b ≡ bit_xor b a
    halving zero zero zero h k = refl
    halving zero (suc a) b h k = absurd (omega arith)
    halving zero a (suc b) h k = absurd (omega arith)
    halving (suc n) a b h k = omega (
      arith,
      bit_xor-halves a b,
      bit_xor-halves b a,
      differ_comm (a % 2) (b % 2),
      halving n (a / 2) (b / 2) (omega arith) (omega arith),
    )

pub bit_xor_lt : (k a b : ℕ) → a < 2 ^ k → b < 2 ^ k → bit_xor a b < 2 ^ k
bit_xor_lt k a b h h' =
    let nothing : halve k (bit_xor a b) ≡ 0 =
      halve-bit_xor k a b ∙ rw (halve_small k a h, halve_small k b h') refl in
    elim (dec_lt (bit_xor a b) (2 ^ k)) [
      | yes lt ↦ lt
      | no ge ↦ absurd (omega (arith, halve_large k (bit_xor a b) (omega arith)))
    ]

-- A number of `k` digits does not reach the digits of the other above these.
pub bit_xor_ge : (k a b : ℕ) → a < 2 ^ k → 2 ^ k ≤ b → 2 ^ k ≤ bit_xor a b
bit_xor_ge k a b h h' =
    let top : halve k (bit_xor a b) ≡ halve k b =
      halve-bit_xor k a b ∙ rw (halve_small k a h) (zero-bit_xor (halve k b)) in
    elim (dec_lt (bit_xor a b) (2 ^ k)) [
      | yes lt ↦ absurd (omega (arith, halve_small k (bit_xor a b) lt, halve_large k b h'))
      | no ge ↦ omega arith
    ]

pub bit_and_zero : (a : ℕ) → bit_and a 0 ≡ 0
bit_and_zero a = halving a a (omega arith)
  where
    halving : (n a : ℕ) → a ≤ n → bit_and a 0 ≡ 0
    halving n zero h = refl
    halving zero (suc a) h = absurd (omega arith)
    halving (suc n) (suc a) h =
        omega (arith, bit_and-halves (suc a) 0, halving n (suc a / 2) (omega arith))

pub bit_and_one : (a : ℕ) → bit_and a 1 ≡ a % 2
bit_and_one a = omega (arith, bit_and-halves a 1, bit_and_zero (a / 2))

-- A mask of `k` ones keeps a number of `k` digits.
pub bit_and_all : (k a : ℕ) → a < 2 ^ k → bit_and a (2 ^ k - 1) ≡ a
bit_and_all zero a h = bit_and_zero a ∙ omega arith
bit_and_all (suc k) a h =
    let half : (2 ^ suc k - 1) / 2 ≡ 2 ^ k - 1 = omega arith in
    bit_and-halves a (2 ^ suc k - 1) ∙ rw (half, bit_and_all k (a / 2) (omega arith)) (omega arith)

-- The `k` lowest digits are 0.
abbrev pub LowZero : ℕ → ℕ → Type 0
LowZero zero a = Unit
LowZero (suc k) a = (a % 2 ≡ 0) × LowZero k (a / 2)

-- Digits that are put where the other number has none are added.
pub bit_or_low : (k a b : ℕ) → LowZero k a → b < 2 ^ k → bit_or a b ≡ a + b
bit_or_low zero a b low h =
    let nothing : b ≡ 0 = omega arith in rw nothing (bit_or_zero a ∙ omega arith)
bit_or_low (suc k) a b low h =
    omega (arith, bit_or-halves a b, bit_or_low k (a / 2) (b / 2) low.1 (omega arith), low.0)

-- The mask takes the digits below those that are 0.
pub bit_and_low : (k a b : ℕ) → LowZero k a → b < 2 ^ k → bit_and (a + b) (2 ^ k - 1) ≡ b
bit_and_low zero a b low h = bit_and_zero (a + b) ∙ omega arith
bit_and_low (suc k) a b low h =
    let mask : (2 ^ suc k - 1) / 2 ≡ 2 ^ k - 1 = omega arith in
    let half : (a + b) / 2 ≡ a / 2 + b / 2 = omega (arith, low.0) in
    let digit : (a + b) % 2 ≡ b % 2 = omega (arith, low.0) in
    bit_and-halves (a + b) (2 ^ suc k - 1)
    ∙ rw (mask, half, digit, bit_and_low k (a / 2) (b / 2) low.1 (omega arith)) (omega arith)

pub LowZero-mul : (k u : ℕ) → LowZero k (u * 2 ^ k)
LowZero-mul zero u = tt
LowZero-mul (suc k) u =
    let double : u * 2 ^ suc k ≡ u * 2 ^ k * 2 = grind arith in
    let half : u * 2 ^ suc k / 2 ≡ u * 2 ^ k = omega arith in
    (omega arith, rw half (LowZero-mul k u))

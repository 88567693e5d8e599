-- ===== src/Prelude/Signed.antt =====
-- Machine words, and the signed numbers that 32-bit patterns stand for.
use Prim.Native.Nat.{ℕ, zero, suc, ◌+◌, ◌-◌, ◌*◌, ◌/◌, ◌%◌, ◌^◌}
use mathlib.Core.Bool.{Bool, true, false}
use horizon_oc.Prelude.Tests.{ltb, leb, if◌then◌else◌}

abbrev pub u8 : ℕ → ℕ
u8 n = n % 256

abbrev pub u32 : ℕ → ℕ
u32 n = n % 2 ^ 32

abbrev pub u64 : ℕ → ℕ
u64 n = n % 2 ^ 64

-- The value `~0` of a `u32`.
abbrev pub u32_max : ℕ
u32_max = 4294967295

-- `negsuc n` is -(n + 1).
pub data ℤ : Type 0 where
  pos : ℕ → ℤ
  negsuc : ℕ → ℤ

-- The `int` that a 32-bit pattern stands for.
abbrev pub signed32 : ℕ → ℤ
signed32 w = if ltb w (2 ^ 31) then pos w else negsuc (2 ^ 32 - w - 1)

-- `-x` of a 32-bit pattern, as the pattern of the result.
abbrev pub neg32 : ℕ → ℕ
neg32 w = (2 ^ 32 - w) % 2 ^ 32

abbrev pub lt_ℤ : ℤ → ℤ → Bool
lt_ℤ (pos a) (pos b) = ltb a b
lt_ℤ (pos a) (negsuc b) = false
lt_ℤ (negsuc a) (pos b) = true
lt_ℤ (negsuc a) (negsuc b) = ltb b a

abbrev pub neg_ℤ : ℤ → ℤ
neg_ℤ (pos zero) = pos 0
neg_ℤ (pos (suc n)) = negsuc n
neg_ℤ (negsuc n) = pos (suc n)

-- C's division rounds towards 0.
abbrev pub div_ℤ : ℤ → ℕ → ℤ
div_ℤ (pos a) b = pos (a / b)
div_ℤ (negsuc a) b = neg_ℤ (pos (suc a / b))

-- The same for a divisor of either sign.
abbrev pub quot_ℤ : ℤ → ℤ → ℤ
quot_ℤ a (pos b) = div_ℤ a b
quot_ℤ a (negsuc b) = neg_ℤ (div_ℤ a (suc b))

-- `>>` of a signed number rounds down.
abbrev pub shr_ℤ : ℤ → ℕ → ℤ
shr_ℤ (pos a) k = pos (a / 2 ^ k)
shr_ℤ (negsuc a) k = negsuc (a / 2 ^ k)

-- The pattern of an `int` as a `u32`.
abbrev pub word32 : ℤ → ℕ
word32 (pos n) = n
word32 (negsuc n) = 2 ^ 32 - suc n

-- The 16 lowest digits of a signed number, and the `s16` that they stand for.
abbrev pub word16 : ℤ → ℕ
word16 (pos n) = n % 2 ^ 16
word16 (negsuc n) = 2 ^ 16 - 1 - n % 2 ^ 16

abbrev pub signed16 : ℕ → ℤ
signed16 w = if ltb w (2 ^ 15) then pos w else negsuc (2 ^ 16 - w - 1)

abbrev pub pos_part : ℤ → ℕ
pos_part (pos n) = n
pos_part (negsuc n) = 0

abbrev pub neg_part : ℤ → ℕ
neg_part (pos n) = 0
neg_part (negsuc n) = suc n

-- The difference of two numbers.
abbrev pub sub_ℕ : ℕ → ℕ → ℤ
sub_ℕ a b = if leb b a then pos (a - b) else negsuc (b - a - 1)

infixl 65 ◌+ℤ◌ ◌-ℤ◌
infixl 70 ◌*ℤ◌
unfoldable pub ◌+ℤ◌ : ℤ → ℤ → ℤ
a +ℤ b = sub_ℕ (pos_part a + pos_part b) (neg_part a + neg_part b)

unfoldable pub ◌-ℤ◌ : ℤ → ℤ → ℤ
a -ℤ b = sub_ℕ (pos_part a + neg_part b) (neg_part a + pos_part b)

unfoldable pub ◌*ℤ◌ : ℤ → ℤ → ℤ
a *ℤ b =
    sub_ℕ (pos_part a * pos_part b + neg_part a * neg_part b)
      (pos_part a * neg_part b + neg_part a * pos_part b)

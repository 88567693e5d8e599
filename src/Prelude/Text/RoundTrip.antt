-- ===== src/Prelude/Text/RoundTrip.antt =====
-- What `strtoul` reads back of a printed number.
use Prim.Native.Nat.{ℕ, zero, suc, ◌+◌, ◌-◌, ◌*◌, ◌/◌, ◌%◌, ◌^◌, ◌<◌, min}
use mathlib.Core.Path.{◌≡◌, refl, ◌∙◌}
use mathlib.Core.Logic.{◌≢◌, ◌⊎◌, inl, inr}
use mathlib.Core.Bool.{true}
use mathlib.Core.List.{[], ◌∷◌}
use native.Mathlib.Omega.{arith}
use native.Mathlib.Decide.{ℕ_discrete}
use native.Mathlib.Nat.{pow-suc}
use horizon_oc.Prelude.Tests.{ltb, Bool-cases, ltb→lt}
use horizon_oc.Prelude.Text.{
  Text, digit, digits, decimal, to_string, skip_spaces, is_space, unsigned_of, signed_of, strtoul,
  hex_digit, hex_digits, format_tid,
}

digit_decimal : (d : ℕ) → d < 10 → digit (b'0' + d) ≡ d
unfolding digit
digit_decimal d h = ground arith

digit_hex : (d : ℕ) → d < 16 → digit (hex_digit d) ≡ d
unfolding digit hex_digit
digit_hex d h = ground arith

-- Reading one digit, where the value stays below the limit.
digits_step :
    (base acc c d v : ℕ) (cs : Text)
    → digit c ≡ d
    → d < base
    → acc * base + d ≡ v
    → v < 2 ^ 64
    → digits base acc (c ∷ cs) ≡ digits base v cs
unfolding digits
digits_step base acc c d v cs e lt sum small =
    let m : min (2 ^ 64 - 1) v ≡ v = omega arith in
    let t : ltb d base ≡ true = ground arith in rw (e, t, sum, m)

digits-decimal :
    (fuel n : ℕ) (rest : Text)
    → n < fuel
    → n < 2 ^ 64
    → digits 10 0 (decimal fuel n rest) ≡ digits 10 n rest
unfolding decimal
digits-decimal zero n rest h small = elim h [ ]
digits-decimal (suc fuel) n rest h small = elim (Bool-cases (ltb n 10)) [
  | inl last ↦ rw last (
      digits_step 10 0 (b'0' + n) n n rest (digit_decimal n (ltb→lt _ _ last)) (ltb→lt _ _ last)
        (omega arith) small)
  | inr more ↦ rw more (
      digits-decimal fuel (n / 10) ((b'0' + n % 10) ∷ rest) (ground (arith, more)) (omega arith)
      ∙ digits_step 10 (n / 10) (b'0' + n % 10) (n % 10) n rest
          (digit_decimal (n % 10) (omega arith)) (omega arith) (omega arith) small)
]

-- The first character of a printed number is a digit, and no zero in front of another digit.
pub record Leads (n : ℕ) (t : Text) : Type 0 where
  pub lead : ℕ
  pub tail : Text
  pub shape : t ≡ (b'0' + lead) ∷ tail
  pub is_digit : lead < 10
  pub no_zero : n ≢ 0 → lead ≢ 0

decimal-Leads : (fuel n : ℕ) (rest : Text) → n < fuel → Leads n (decimal fuel n rest)
unfolding decimal
decimal-Leads zero n rest h = elim h [ ]
decimal-Leads (suc fuel) n rest h = elim (Bool-cases (ltb n 10)) [
  | inl last ↦ rw last (record {
    lead = n;
    tail = rest;
    shape = refl;
    is_digit = ltb→lt _ _ last;
    no_zero = λ nz. nz;
  })
  | inr more ↦
      let l = decimal-Leads fuel (n / 10) ((b'0' + n % 10) ∷ rest) (ground (arith, more)) in
      rw more (record {
        lead = l.lead;
        tail = l.tail;
        shape = l.shape;
        is_digit = l.is_digit;
        no_zero = λ nz. l.no_zero (ground (arith, more));
      })
]

-- A number that begins with a digit other than 0 is read in base 10 where the base is 10 or 0.
unsigned_of_decimal :
    (base a : ℕ) (t : Text)
    → (base ≡ 0) ⊎ (base ≡ 10)
    → a ≢ b'0'
    → unsigned_of base (a ∷ t) ≡ digits 10 0 (a ∷ t)
unfolding unsigned_of
unsigned_of_decimal base a [] b h = ground arith
unsigned_of_decimal base a (c ∷ cs) b h = ground arith

strtoul_digit :
    (base d : ℕ) (t : Text)
    → d < 10
    → strtoul ((b'0' + d) ∷ t) base ≡ unsigned_of base ((b'0' + d) ∷ t)
unfolding strtoul skip_spaces signed_of is_space
strtoul_digit base d t h = ground arith

strtoul-decimal :
    (base n : ℕ) (t : Text)
    → Leads n t
    → (base ≡ 0) ⊎ (base ≡ 10)
    → n ≢ 0
    → strtoul t base ≡ digits 10 0 t
strtoul-decimal base n t l b nz = rw l.shape (
    strtoul_digit base l.lead l.tail l.is_digit
    ∙ unsigned_of_decimal base (b'0' + l.lead) l.tail b (λ e. l.no_zero nz (omega arith)))

strtoul-to_string_zero : (base : ℕ) → (base ≡ 0) ⊎ (base ≡ 10) → strtoul (to_string 0) base ≡ 0
unfolding strtoul skip_spaces signed_of is_space unsigned_of to_string decimal digits digit
strtoul-to_string_zero base (inl e) = rw e
strtoul-to_string_zero base (inr e) = rw e

digits-decimal_end : (n : ℕ) → n < 2 ^ 64 → digits 10 0 (to_string n) ≡ n
unfolding to_string digits
digits-decimal_end n small = digits-decimal (suc n) n [] (omega arith) small

to_string-Leads : (n : ℕ) → Leads n (to_string n)
unfolding to_string
to_string-Leads n = decimal-Leads (suc n) n [] (omega arith)

-- `strtoul` in base 0 or 10 reads back what `std::to_string` prints of a 64-bit number.
pub strtoul-to_string :
    (base n : ℕ) → (base ≡ 0) ⊎ (base ≡ 10) → n < 2 ^ 64 → strtoul (to_string n) base ≡ n
strtoul-to_string base n b small = elim (ℕ_discrete n 0) [
  | yes e ↦ rw e (strtoul-to_string_zero base b)
  | no ne ↦
      strtoul-decimal base n (to_string n) (to_string-Leads n) b ne ∙ digits-decimal_end n small
]

digits-hex_digits :
    (k n : ℕ) (rest : Text)
    → n < 16 ^ k
    → n < 2 ^ 64
    → digits 16 0 (hex_digits k n rest) ≡ digits 16 n rest
unfolding hex_digits
digits-hex_digits zero n rest h small = let e : n ≡ 0 = omega arith in rw e
digits-hex_digits (suc k) n rest h small =
    digits-hex_digits k (n / 16) (hex_digit (n % 16) ∷ rest) (omega (arith, pow-suc 16 k))
      (omega arith)
    ∙ digits_step 16 (n / 16) (hex_digit (n % 16)) (n % 16) n rest
        (digit_hex (n % 16) (omega arith)) (omega arith) (omega arith) small

-- A number that begins with two hexadecimal digits has no sign and no prefix.
strtoul_hex :
    (d e : ℕ) (cs : Text)
    → d < 16
    → e < 16
    → strtoul (hex_digit d ∷ hex_digit e ∷ cs) 16 ≡ digits 16 0 (hex_digit d ∷ hex_digit e ∷ cs)
unfolding strtoul skip_spaces signed_of is_space unsigned_of hex_digit
strtoul_hex d e cs hd he = ground arith

-- `strtoul` in base 16 reads back what `snprintf("%016lX")` prints of a 64-bit number.
pub strtoul-format_tid : (tid : ℕ) → tid < 2 ^ 64 → strtoul (format_tid tid) 16 ≡ tid
unfolding format_tid hex_digits digits
strtoul-format_tid tid small =
    strtoul_hex _ _ _ (omega arith) (omega arith) ∙ digits-hex_digits 16 tid [] small small

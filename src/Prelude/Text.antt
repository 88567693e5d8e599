-- ===== src/Prelude/Text.antt =====
-- C strings as lists of code points, and the functions of the C library on them that the
-- configuration uses: `strcmp`, `strtoul`, `std::to_string` and `snprintf("%016lX")`.
pub mod RoundTrip
use Prim.Native.Nat.{ℕ, zero, suc, ◌+◌, ◌-◌, ◌*◌, ◌/◌, ◌%◌, ◌^◌, min}
use Prim.Native.Char.{code}
use Prim.Native.String.{String}
use mathlib.Core.Bool.{Bool, true, false, ◌&&◌, ◌||◌}
use mathlib.Core.Option.{Option, none, some}
use mathlib.Core.List.{List, [], ◌∷◌}
use horizon_oc.Prelude.Tests.{ltb, leb, ◌==◌, if◌then◌else◌}

abbrev pub Text : Type 0
Text = List ℕ

abbrev pub codes : String → Text
codes String.[] = []
codes (String.◌∷◌ c s) = code c ∷ codes s

-- `!strcmp(a, b)`.
unfoldable pub text_eq : Text → Text → Bool
text_eq [] [] = true
text_eq (a ∷ as') (b ∷ bs) = a == b && text_eq as' bs
text_eq _ _ = false

-- What is left of a text behind a prefix.
unfoldable pub strip_prefix : Text → Text → Option Text
strip_prefix [] t = some t
strip_prefix (p ∷ ps) [] = none
strip_prefix (p ∷ ps) (c ∷ cs) = let rest = strip_prefix ps cs in if p == c then rest else none

-- The value of a digit, letters included; 36 for any other character.
digit : ℕ → ℕ
digit c =
    if leb b'0' c && leb c b'9'
    then c - b'0'
    else if leb b'a' c && leb c b'z'
    then c - b'a' + 10
    else if leb b'A' c && leb c b'Z'
    then c - b'A' + 10
    else 36

-- The digits up to the first character that is none; past ULONG_MAX the value stays there.
unfoldable pub digits : ℕ → ℕ → Text → ℕ
unfolding digit
digits base acc [] = acc
digits base acc (c ∷ cs) =
    let rest = digits base (min (2 ^ 64 - 1) (acc * base + digit c)) cs in
    if ltb (digit c) base then rest else acc

is_space : ℕ → Bool
is_space c = c == 32 || (leb 9 c && leb c 13)

unfoldable pub skip_spaces : Text → Text
unfolding is_space
skip_spaces [] = []
skip_spaces (c ∷ cs) = let rest = skip_spaces cs in if is_space c then rest else c ∷ cs

is_x : ℕ → Bool
is_x c = c == b'x' || c == b'X'

-- Base 0 is told by the prefix. A prefix with no digit behind it is worth 0 in any case.
unfoldable pub unsigned_of : ℕ → Text → ℕ
unfolding is_x
unsigned_of base [] = 0
unsigned_of base (a ∷ []) = digits (if base == 0 then 10 else base) 0 (a ∷ [])
unsigned_of base (a ∷ b ∷ cs) =
    if a == b'0' && (is_x b && (base == 0 || base == 16))
    then digits 16 0 cs
    else digits (if base == 0 then (if a == b'0' then 8 else 10) else base) 0 (a ∷ b ∷ cs)

signed_of : ℕ → Text → ℕ
unfolding unsigned_of
signed_of base [] = 0
signed_of base (c ∷ cs) =
    if c == b'-'
    then (2 ^ 64 - unsigned_of base cs) % 2 ^ 64
    else if c == b'+'
    then unsigned_of base cs
    else unsigned_of base (c ∷ cs)

unfoldable pub strtoul : Text → ℕ → ℕ
unfolding signed_of skip_spaces
strtoul t base = signed_of base (skip_spaces t)

-- Decimal digits in front of a text; `fuel` above the number is enough.
unfoldable pub decimal : ℕ → ℕ → Text → Text
decimal zero n rest = rest
decimal (suc fuel) n rest =
    let more = decimal fuel (n / 10) ((b'0' + n % 10) ∷ rest) in
    if ltb n 10 then (b'0' + n) ∷ rest else more

unfoldable pub to_string : ℕ → Text
unfolding decimal
to_string n = decimal (suc n) n []

hex_digit : ℕ → ℕ
hex_digit d = if ltb d 10 then b'0' + d else b'A' + d - 10

-- The last `k` hexadecimal digits of a number in front of a text.
unfoldable pub hex_digits : ℕ → ℕ → Text → Text
unfolding hex_digit
hex_digits zero n rest = rest
hex_digits (suc k) n rest = hex_digits k (n / 16) (hex_digit (n % 16) ∷ rest)

-- `snprintf(section, 17, "%016lX", tid)`.
unfoldable pub format_tid : ℕ → Text
unfolding hex_digits
format_tid tid = hex_digits 16 tid []

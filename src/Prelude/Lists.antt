-- ===== src/Prelude/Lists.antt =====
-- Lists measured and indexed by native numbers, under the library's names.
use Prim.Native.Nat.{ℕ, zero, suc, ◌+◌, ◌≤◌, ◌<◌, ◌-◌}
use mathlib.Core.Path.{◌≡◌, refl, ap, sym, ◌∙◌}
use mathlib.Core.Bool.{Bool, true, false}
use mathlib.Core.List.{List, [], ◌∷◌, ◌++◌}
use mathlib.Core.Option.{Option, none, some}
use native.Mathlib.Decide.{dec_lt}
use native.Mathlib.Omega.{arith}

module _ {ℓ} {A : Type ℓ} where
  abbrev pub length : List A → ℕ
  length [] = 0
  length (x ∷ xs) = suc (length xs)

  abbrev pub get_elem? : List A → ℕ → Option A
  get_elem? [] i = none
  get_elem? (x ∷ xs) zero = some x
  get_elem? (x ∷ xs) (suc i) = get_elem? xs i

  abbrev pub get_or : List A → ℕ → A → A
  get_or [] i d = d
  get_or (x ∷ xs) zero d = x
  get_or (x ∷ xs) (suc i) d = get_or xs i d

  abbrev pub take : ℕ → List A → List A
  take zero xs = []
  take (suc n) [] = []
  take (suc n) (x ∷ xs) = x ∷ take n xs

  pub length-append : (xs ys : List A) → length (xs ++ ys) ≡ length xs + length ys
  length-append [] ys = omega arith
  length-append (x ∷ xs) ys = omega (arith, length-append xs ys)

  pub get_elem?-get_or :
      (xs : List A) (i : ℕ) (d : A) → i < length xs → get_elem? xs i ≡ some (get_or xs i d)
  get_elem?-get_or [] i d h = elim h [ ]
  get_elem?-get_or (x ∷ xs) zero d h = refl
  get_elem?-get_or (x ∷ xs) (suc i) d h = get_elem?-get_or xs i d (omega arith)

module _ {ℓ} {A : Type ℓ} where
  pub get_or-any : (xs : List A) (i : ℕ) (d e : A) → i < length xs → get_or xs i d ≡ get_or xs i e
  get_or-any [] i d e h = elim h [ ]
  get_or-any (x ∷ xs) zero d e h = refl
  get_or-any (x ∷ xs) (suc i) d e h = get_or-any xs i d e (omega arith)

-- Every element satisfies `P`.
abbrev pub All {ℓ κ} : {A : Type ℓ} → (A → Type κ) → List A → Type κ
All P [] = Unit
All P (x ∷ xs) = P x × All P xs

-- The elements that pass a Boolean test.
abbrev pub keep {ℓ} : {A : Type ℓ} → (A → Bool) → List A → List A
keep p [] = []
keep p (x ∷ xs) = let rest = keep p xs in elim (p x) [ true ↦ x ∷ rest | false ↦ rest ]

module _ {ℓ} {A : Type ℓ} where
  pub keep-true :
      (p : A → Bool) (x : A) (xs : List A) → p x ≡ true → keep p (x ∷ xs) ≡ x ∷ keep p xs
  keep-true p x xs h = ground (arith, h)

  pub keep-false : (p : A → Bool) (x : A) (xs : List A) → p x ≡ false → keep p (x ∷ xs) ≡ keep p xs
  keep-false p x xs h = ground (arith, h)

-- A test that holds of every number below a bound, by evaluation.
abbrev pub every_below : ℕ → (ℕ → Bool) → Bool
every_below zero test = true
every_below (suc n) test =
    let rest = every_below n test in elim (test n) [ true ↦ rest | false ↦ false ]

pub at-every_below :
    (n : ℕ) (test : ℕ → Bool) → every_below n test ≡ true → (i : ℕ) → i < n → test i ≡ true
at-every_below zero test all i h = absurd (omega arith)
at-every_below (suc n) test all i h = elim (dec_lt i n) [
  | yes lower ↦ at-every_below n test (ground (arith, all)) i lower
  | no last ↦ let same : i ≡ n = omega arith in rw same (ground (arith, all))
]

-- The same from 40 on.
pub from_forty :
    (n : ℕ) (test : ℕ → Bool) (i : ℕ)
    → every_below n (λ k. test (40 + k)) ≡ true
    → 40 ≤ i
    → i < 40 + n
    → test i ≡ true
from_forty n test i all lo hi =
    let same : 40 + (i - 40) ≡ i = omega arith in
    ap test (sym same) ∙ at-every_below n (λ k. test (40 + k)) all (i - 40) (omega arith)

-- ===== src/Common/Memmem/First.antt =====
-- `memmem_impl` against what it is to find: the first place at which the needle stands.
use horizon_oc.Prelude.{
  length, length-append, ltb, ◌==◌, ==_iff, ltb→lt, ℕ, zero, suc, ◌+◌, ◌-◌, ◌<◌, ◌≤◌, ◌≡◌, inl, inr,
  refl, ap, true, false, Bool-cases, Option, none, some, List, [], ◌∷◌, ◌++◌, arith,
}
use horizon_oc.Common.Memmem.{found_at, search, memmem_impl}

-- The needle stands in the haystack, at the offset `i`.
pub record OccursAt (hay needle : List ℕ) (i : ℕ) : Type 0 where
  pub before : List ℕ
  pub after : List ℕ
  pub offset : length before ≡ i
  pub split : hay ≡ before ++ (needle ++ after)

-- What the search is to answer: the first offset at which the needle stands, or `none`.
abbrev pub IsFirst : (hay needle : List ℕ) → Option ℕ → Type 0
IsFirst hay needle none = (i : ℕ) → ¬ OccursAt hay needle i
IsFirst hay needle (some i) = OccursAt hay needle i × ((j : ℕ) → j < i → ¬ OccursAt hay needle j)

-- The answer with the offset counted from `p`.
abbrev IsFirstFrom : ℕ → (hay needle : List ℕ) → Option ℕ → Type 0
IsFirstFrom p hay needle none = (i : ℕ) → ¬ OccursAt hay needle i
IsFirstFrom p hay needle (some r) = (i : ℕ) × (r ≡ p + i) × IsFirst hay needle (some i)

tail : List ℕ → List ℕ
tail [] = []
tail (x ∷ xs) = xs

found_at-true :
    (needle hay : List ℕ) → found_at needle hay ≡ true → (after : List ℕ) × (hay ≡ needle ++ after)
unfolding found_at
found_at-true [] hay h = (hay, refl)
found_at-true (q ∷ needle) [] h = ground (arith, h)
found_at-true (q ∷ needle) (c ∷ hay) h = elim (Bool-cases (c == q)) [
  | inl same ↦
      let (after, e) = found_at-true needle hay (rw same at h) in
      (after, rw ((==_iff c q).0 same, e) refl)
  | inr other ↦ ground (arith, h, other)
]

found_at-prefix : (needle after : List ℕ) → found_at needle (needle ++ after) ≡ true
unfolding found_at
found_at-prefix [] after = refl
found_at-prefix (q ∷ needle) after = rw ((==_iff q q).1 refl) (found_at-prefix needle after)

length-OccursAt :
    (hay needle : List ℕ) (i : ℕ) → OccursAt hay needle i → length needle + i ≤ length hay
length-OccursAt hay needle i o = omega (
  arith,
  ap length o.split,
  o.offset,
  length-append o.before (needle ++ o.after),
  length-append needle o.after,
)

OccursAt-next :
    (c : ℕ) (hay needle : List ℕ) (i : ℕ)
    → OccursAt hay needle i
    → OccursAt (c ∷ hay) needle (suc i)
OccursAt-next c hay needle i o = record {
  before = c ∷ o.before;
  after = o.after;
  offset = ap suc o.offset;
  split = ap (λ xs. c ∷ xs) o.split;
}

OccursAt-back :
    (c : ℕ) (hay needle : List ℕ) (i : ℕ)
    → OccursAt (c ∷ hay) needle (suc i)
    → OccursAt hay needle i
unfolding tail
OccursAt-back c hay needle i o = shorter o.before o.offset o.split
  where
    shorter :
        (before : List ℕ)
        → length before ≡ suc i
        → (c ∷ hay) ≡ (before ++ (needle ++ o.after))
        → OccursAt hay needle i
    shorter [] h e = absurd (omega arith)
    shorter (b ∷ before) h e = record {
      before = before;
      after = o.after;
      offset = omega (arith, h);
      split = ap tail e;
    }

found_at-OccursAt : (needle hay : List ℕ) → found_at needle hay ≡ true → OccursAt hay needle 0
found_at-OccursAt needle hay h =
    let (after, e) = found_at-true needle hay h in
    record { before = []; after = after; offset = refl; split = e }

OccursAt-found_at : (needle hay : List ℕ) → OccursAt hay needle 0 → found_at needle hay ≡ true
OccursAt-found_at needle hay o = here o.before o.offset o.split
  where
    here :
        (before : List ℕ)
        → length before ≡ 0
        → hay ≡ (before ++ (needle ++ o.after))
        → found_at needle hay ≡ true
    here [] h e = rw e (found_at-prefix needle o.after)
    here (b ∷ before) h e = absurd (omega (arith, h))

not_found-absent : (needle hay : List ℕ) → found_at needle hay ≡ false → ¬ OccursAt hay needle 0
not_found-absent needle hay h o = ground (arith, h, OccursAt-found_at needle hay o)

-- The answer for the bytes after the first, when the needle does not stand at the first.
IsFirstFrom-next :
    (c : ℕ) (hay needle : List ℕ) (p : ℕ) (r : Option ℕ)
    → ¬ OccursAt (c ∷ hay) needle 0
    → IsFirstFrom (suc p) hay needle r
    → IsFirstFrom p (c ∷ hay) needle r
IsFirstFrom-next c hay needle p none no_first rest = absent
  where
    absent : (i : ℕ) → ¬ OccursAt (c ∷ hay) needle i
    absent zero o = no_first o
    absent (suc i) o = rest i (OccursAt-back c hay needle i o)
IsFirstFrom-next c hay needle p (some r) absent (i, e, (here, before)) =
    (suc i, omega (arith, e), (OccursAt-next c hay needle i here, earlier))
  where
    earlier : (j : ℕ) → j < suc i → ¬ OccursAt (c ∷ hay) needle j
    earlier zero lt o = absent o
    earlier (suc j) lt o = before j (omega arith) (OccursAt-back c hay needle j o)

IsFirstFrom-here :
    (hay needle : List ℕ) (p : ℕ) → OccursAt hay needle 0 → IsFirstFrom p hay needle (some p)
IsFirstFrom-here hay needle p o = (0, omega arith, (o, λ j lt. absurd (omega arith)))

search-IsFirstFrom :
    (n p : ℕ) (needle hay : List ℕ)
    → n + length needle ≡ suc (length hay)
    → IsFirstFrom p hay needle (search n p needle hay)
unfolding search
search-IsFirstFrom zero p needle hay e = λ i o. omega (arith, length-OccursAt hay needle i o)
search-IsFirstFrom (suc n) p needle [] e = elim (Bool-cases (found_at needle [])) [
  | inl h ↦ rw h (IsFirstFrom-here [] needle p (found_at-OccursAt needle [] h))
  | inr h ↦ rw h (λ i o.
      let start : i ≡ 0 = omega (arith, length-OccursAt [] needle i o) in
      not_found-absent needle [] h (rw start at o))
]
search-IsFirstFrom (suc n) p needle (c ∷ hay) e =
    let rest = search-IsFirstFrom n (suc p) needle hay (omega arith) in
    elim (Bool-cases (found_at needle (c ∷ hay))) [
      | inl h ↦ rw h (IsFirstFrom-here (c ∷ hay) needle p (found_at-OccursAt needle (c ∷ hay) h))
      | inr h ↦ rw h (IsFirstFrom-next c hay needle p _ (not_found-absent needle (c ∷ hay) h) rest)
    ]

IsFirst-from :
    (hay needle : List ℕ) (r : Option ℕ) → IsFirstFrom 0 hay needle r → IsFirst hay needle r
IsFirst-from hay needle none h = h
IsFirst-from hay needle (some r) (i, e, first) = let same : r ≡ i = omega arith in rw same first

empty-OccursAt : (needle hay : List ℕ) → length needle ≡ 0 → OccursAt hay needle 0
empty-OccursAt [] hay h = record { before = []; after = hay; offset = refl; split = refl }
empty-OccursAt (q ∷ needle) hay h = absurd (omega (arith, h))

-- For a haystack that is not empty the result is the first offset at which the needle stands, and
-- `none` exactly when it stands nowhere; a needle that is empty stands at the start.
pub memmem_impl-IsFirst :
    (hay needle : List ℕ)
    → 0 < length hay
    → IsFirst hay needle (memmem_impl (some hay) (some needle))
unfolding memmem_impl
memmem_impl-IsFirst hay needle h =
    let not_empty : (length hay == 0) ≡ false = ground arith in
    rw not_empty (elim (Bool-cases (length needle == 0)) [
      | inl none_left ↦
          rw none_left
            (empty-OccursAt needle hay ((==_iff _ _).0 none_left), λ j lt. absurd (omega arith))
      | inr some_left ↦ elim (Bool-cases (ltb (length hay) (length needle))) [
        | inl short ↦
            rw (some_left, short)
              (λ i o. omega (arith, ltb→lt _ _ short, length-OccursAt hay needle i o))
        | inr fits ↦
            let enough : length needle ≤ length hay = ground (arith, fits) in
            rw (some_left, fits)
              (IsFirst-from hay needle _
                (search-IsFirstFrom (suc (length hay - length needle)) 0 needle hay (omega arith)))
      ]
    ])

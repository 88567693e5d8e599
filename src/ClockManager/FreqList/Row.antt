-- ===== src/ClockManager/FreqList/Row.antt =====
-- What a refreshed row of the frequency table holds.
use horizon_oc.Prelude.{
  All, length, get_or, keep, ℕ, zero, suc, ◌≤◌, ◌<◌, ◌≡◌, refl, Bool, true, some, List, [], ◌∷◌,
  arith,
}
use horizon_oc.Board.Types.{Module}
use horizon_oc.ClockManager.State.{FreqTable}
use horizon_oc.ClockManager.Tables.{hz_at, Rises}
use horizon_oc.ClockManager.Limits.{is_assignable_hz}
use horizon_oc.ClockManager.FreqList.{refresh_row, overwrite, freq_list_max}

-- The new array has the length of the old one and begins with what was written.
overwrite_lem :
    (xs old : List ℕ)
    → length xs ≤ length old
    → (list : List ℕ) × (overwrite xs old ≡ some list)
      × (length list ≡ length old)
      × ((i : ℕ) → i < length xs → get_or list i 0 ≡ get_or xs i 0)
unfolding overwrite
overwrite_lem [] old le = (old, refl, refl, λ i h. elim h [ ])
overwrite_lem (x ∷ xs) [] le = absurd (omega arith)
overwrite_lem (x ∷ xs) (o ∷ old) le =
    let (rest, e, len, same) = overwrite_lem xs old (omega arith) in
    (x ∷ rest, rw e, omega (arith, len), λ i h. written x xs rest same i h)
  where
    written :
        (x : ℕ) (xs rest : List ℕ)
        → ((i : ℕ) → i < length xs → get_or rest i 0 ≡ get_or xs i 0)
        → (i : ℕ) → i < length (x ∷ xs)
        → get_or (x ∷ rest) i 0 ≡ get_or (x ∷ xs) i 0
    written x xs rest same zero h = refl
    written x xs rest same (suc i) h = same i (omega arith)

length-keep {ℓ} : {A : Type ℓ} (p : A → Bool) (xs : List A) → length (keep p xs) ≤ length xs
length-keep p [] = omega arith
length-keep p (x ∷ xs) = ground (arith, length-keep p xs)

keep-All : (p : ℕ → Bool) (xs : List ℕ) → All (λ x. p x ≡ true) (keep p xs)
keep-All p [] = tt
keep-All p (x ∷ xs) = ground (arith, keep-All p xs)

All-get_or : (P : ℕ → Type 0) (xs : List ℕ) (i : ℕ) → i < length xs → All P xs → P (get_or xs i 0)
All-get_or P [] i h all = elim h [ ]
All-get_or P (x ∷ xs) zero h all = all.0
All-get_or P (x ∷ xs) (suc i) h all = All-get_or P xs i (omega arith) all.1

-- A list in rising order, as a bound below each tail.
abbrev pub IsRising : ℕ → List ℕ → Type 0
IsRising low [] = Unit {0}
IsRising low (x ∷ xs) = (low ≤ x) × IsRising x xs

IsRising-weaken : (a b : ℕ) (xs : List ℕ) → a ≤ b → IsRising b xs → IsRising a xs
IsRising-weaken a b [] le r = tt
IsRising-weaken a b (x ∷ xs) le r = (omega arith, r.1)

keep-IsRising : (p : ℕ → Bool) (low : ℕ) (xs : List ℕ) → IsRising low xs → IsRising low (keep p xs)
keep-IsRising p low [] r = tt
keep-IsRising p low (x ∷ xs) r =
    ground (arith, keep-IsRising p x xs r.1, IsRising-weaken low x (keep p xs))

IsRising-get_or :
    (low : ℕ) (xs : List ℕ) (i : ℕ)
    → IsRising low xs
    → suc i < length xs
    → get_or xs i 0 ≤ get_or xs (suc i) 0
IsRising-get_or low [] i r h = absurd (omega arith)
IsRising-get_or low (x ∷ []) i r h = absurd (omega arith)
IsRising-get_or low (x ∷ y ∷ xs) zero r h = r.1.0
IsRising-get_or low (x ∷ y ∷ xs) (suc i) r h = IsRising-get_or x (y ∷ xs) i r.1 (omega arith)

-- What holds of a row after a refresh.
pub record IsRefreshed (m : Module) (freqs : List ℕ) (t : FreqTable) : Type 0 where
  pub counted : t.count ≡ length (keep (is_assignable_hz m) freqs)
  pub size : length t.list ≡ freq_list_max
  pub fits : t.count ≤ freq_list_max
  -- Each clock in use is the assignable one of the list with its index.
  pub listed : (i : ℕ) → i < t.count → hz_at t i ≡ get_or (keep (is_assignable_hz m) freqs) i 0
  pub assignable : (i : ℕ) → i < t.count → is_assignable_hz m (hz_at t i) ≡ true
  pub rises : Rises t

-- From a list of at most 32 clocks in rising order the refresh of a row writes inside the array;
-- the row then has exactly the clocks of the list that may be assigned, in their order, and they
-- rise.
pub refresh_row-IsRefreshed :
    (m : Module) (freqs : List ℕ) (t : FreqTable)
    → length t.list ≡ freq_list_max
    → length freqs ≤ freq_list_max
    → IsRising 0 freqs
    → (t' : FreqTable) × (refresh_row m freqs t ≡ some t') × IsRefreshed m freqs t'
unfolding refresh_row
refresh_row-IsRefreshed m freqs t size few rising =
    let kept = keep (is_assignable_hz m) freqs in
    let fewer = length-keep (is_assignable_hz m) freqs in
    let (list, e, len, same) = overwrite_lem kept t.list (omega arith) in
    (
      record { count = length kept; list = list },
      rw e,
      record {
        counted = refl;
        size = omega (arith, len);
        fits = omega arith;
        listed = same;
        assignable = λ i h. rw (same i h) (All-get_or _ kept i h (keep-All _ freqs));
        rises = λ i h.
            rw (same i (omega arith), same (suc i) h)
              (IsRising-get_or 0 kept i (keep-IsRising _ 0 freqs rising) h);
      },
    )

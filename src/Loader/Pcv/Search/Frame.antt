-- ===== src/Loader/Pcv/Search/Frame.antt =====
-- What the search of `Patch` can change, and how often it applies a patch.
use horizon_oc.Prelude.{
  All, Bool-cases, if◌then◌else◌, ℕ, zero, suc, ◌+◌, ◌<◌, ◌≤◌, ◌≡◌, ◌⊎◌, inl, inr, refl, ◌∙◌, true,
  false, Bool, Option, none, some, List, [], ◌∷◌, arith,
}
use horizon_oc.Loader.Memory.{Memory, rounds}
use horizon_oc.Loader.Patcher.{
  Result, PatcherEntry, search_ok, search_and_apply, succeeded, check_result,
}
use horizon_oc.Loader.Pcv.Search.{apply_first, search_patches, check_all, patch_pcv}

-- A patch writes at most `low` words before its pointer and `high` words after it.
abbrev pub Reaches : ℕ → ℕ → PatcherEntry → Type 0
Reaches low high e =
    (ptr : ℕ) (m : Memory) (a : ℕ)
    → (a + low < ptr) ⊎ (ptr + high < a)
    → (e.patcher_fn ptr m).1 a ≡ m a

-- The patches applied in all.
abbrev pub total : List PatcherEntry → ℕ
total [] = 0
total (e ∷ es) = e.patched_count + total es

-- The same patches with other counts.
abbrev pub SamePatches : List PatcherEntry → List PatcherEntry → Type 0
SamePatches [] [] = Unit
SamePatches [] (e ∷ es) = ⊥
SamePatches (e ∷ es) [] = ⊥
SamePatches (e ∷ es) (f ∷ fs) =
    (f.patcher_fn ≡ e.patcher_fn)
    × (f.maximum_patched_count ≡ e.maximum_patched_count)
    × SamePatches es fs

-- One patch at one pointer.
record Tried (low high : ℕ) (e : PatcherEntry) (ptr : ℕ) (m : Memory)
    (r : Result × (PatcherEntry × Memory)) : Type 0 where
  same_fn : r.1.0.patcher_fn ≡ e.patcher_fn
  same_max : r.1.0.maximum_patched_count ≡ e.maximum_patched_count
  count : r.1.0.patched_count ≡ e.patched_count + (if succeeded r.0 then 1 else 0)
  frame : (a : ℕ) → (a + low < ptr) ⊎ (ptr + high < a) → r.1.1 a ≡ m a

search_and_apply-Tried :
    (low high : ℕ) (e : PatcherEntry) (ptr : ℕ) (m : Memory)
    → Reaches low high e
    → Tried low high e ptr m (search_and_apply e ptr m)
search_and_apply-Tried low high e ptr m reach = elim (Bool-cases (search_ok e ptr m)) [
  | inr no_match ↦
      rw no_match
        (record { same_fn = refl; same_max = refl; count = omega arith; frame = λ a far. refl })
  | inl found ↦ elim (Bool-cases (succeeded (e.patcher_fn ptr m).0)) [
    | inl done ↦ rw found (record {
      same_fn = rw done refl;
      same_max = rw done refl;
      count = rw done (omega arith);
      frame = reach ptr m;
    })
    | inr failed ↦ rw found (record {
      same_fn = rw failed refl;
      same_max = rw failed refl;
      count = rw failed (omega arith);
      frame = reach ptr m;
    })
  ]
]

SamePatches-refl : (es : List PatcherEntry) → SamePatches es es
SamePatches-refl [] = tt
SamePatches-refl (e ∷ es) = (refl, refl, SamePatches-refl es)

SamePatches-trans :
    (es fs gs : List PatcherEntry) → SamePatches es fs → SamePatches fs gs → SamePatches es gs
SamePatches-trans [] [] [] p q = tt
SamePatches-trans [] (f ∷ fs) gs p q = absurd p
SamePatches-trans [] [] (g ∷ gs) p q = absurd q
SamePatches-trans (e ∷ es) [] gs p q = absurd p
SamePatches-trans (e ∷ es) (f ∷ fs) [] p q = absurd q
SamePatches-trans (e ∷ es) (f ∷ fs) (g ∷ gs) p q =
    (q.0 ∙ p.0, q.1 ∙ p.1, SamePatches-trans es fs gs p.2 q.2)

All-reach :
    (low high : ℕ) (es fs : List PatcherEntry)
    → SamePatches es fs
    → All (Reaches low high) es
    → All (Reaches low high) fs
All-reach low high [] [] same all = tt
All-reach low high [] (f ∷ fs) same all = absurd same
All-reach low high (e ∷ es) [] same all = absurd same
All-reach low high (e ∷ es) (f ∷ fs) same all =
    (λ ptr m a far. rw same.0 (all.0 ptr m a far), All-reach low high es fs same.2 all.1)

-- What the patches did at the `n` pointers from `first` on.
pub record Ran (low high n first : ℕ) (es : List PatcherEntry) (m : Memory)
    (r : List PatcherEntry × Memory) : Type 0 where
  pub same : SamePatches es r.0
  pub count : total r.0 ≤ total es + n
  pub frame : (a : ℕ) → (a + low < first) ⊎ (first + n + high ≤ a) → r.1 a ≡ m a

-- At one pointer at most one patch is applied.
apply_first-Ran :
    (low high : ℕ) (es : List PatcherEntry) (ptr : ℕ) (m : Memory)
    → All (Reaches low high) es
    → Ran low high 1 ptr es m (apply_first es ptr m)
unfolding apply_first
apply_first-Ran low high [] ptr m all = record {
  same = tt;
  count = omega arith;
  frame = λ a far. refl;
}
apply_first-Ran low high (e ∷ es) ptr m all =
    let r = search_and_apply e ptr m in
    let t = search_and_apply-Tried low high e ptr m all.0 in
    let rest = apply_first-Ran low high es ptr r.1.1 all.1 in
    elim (Bool-cases (succeeded r.0)) [
      | inl done ↦ rw done (record {
        same = (t.same_fn, t.same_max, SamePatches-refl es);
        count = omega (arith, rw done at t.count);
        frame = λ a far. t.frame a (omega arith);
      })
      | inr failed ↦ rw failed (record {
        same = (t.same_fn, t.same_max, rest.same);
        count = omega (arith, rw failed at t.count, rest.count);
        frame = λ a far. rest.frame a far ∙ t.frame a (omega arith);
      })
    ]

search_patches-Ran :
    (low high n first : ℕ) (es : List PatcherEntry) (m : Memory)
    → All (Reaches low high) es
    → Ran low high n first es m (search_patches n first es m)
unfolding search_patches
search_patches-Ran low high zero first es m all = record {
  same = SamePatches-refl es;
  count = omega arith;
  frame = λ a far. refl;
}
search_patches-Ran low high (suc n) first es m all =
    let here = apply_first-Ran low high es first m all in
    let (es', m') = apply_first es first m in
    let rest =
      search_patches-Ran low high n (suc first) es' m' (All-reach low high es es' here.same all) in
    record {
      same = SamePatches-trans es es' (search_patches n (suc first) es' m').0 here.same rest.same;
      count = omega (arith, here.count, rest.count);
      frame = λ a far. rest.frame a (omega arith) ∙ here.frame a (omega arith);
    }

-- Whether a patch of the list succeeds at a word; one that fails may have written before the next.
abbrev pub one_succeeds : List PatcherEntry → ℕ → Memory → Bool
one_succeeds [] ptr m = false
one_succeeds (e ∷ es) ptr m =
    let r = search_and_apply e ptr m in
    let later = one_succeeds es ptr r.1.1 in if succeeded r.0 then true else later

apply_first-total :
    (low high : ℕ) (es : List PatcherEntry) (ptr : ℕ) (m : Memory)
    → All (Reaches low high) es
    → total (apply_first es ptr m).0 ≡ total es + (if one_succeeds es ptr m then 1 else 0)
unfolding apply_first
apply_first-total low high [] ptr m all = omega arith
apply_first-total low high (e ∷ es) ptr m all =
    let r = search_and_apply e ptr m in
    let t = search_and_apply-Tried low high e ptr m all.0 in
    let rest = apply_first-total low high es ptr r.1.1 all.1 in
    elim (Bool-cases (succeeded r.0)) [
      | inl done ↦ rw done (omega (arith, rw done at t.count))
      | inr failed ↦ rw failed (omega (arith, rw failed at t.count, rest))
    ]

-- The number of words, among `n` from `first` on, at which a patch succeeds.
unfoldable pub words_patched : ℕ → ℕ → List PatcherEntry → Memory → ℕ
words_patched zero first es m = 0
words_patched (suc n) first es m =
    let (es', m') = apply_first es first m in
    (if one_succeeds es first m then 1 else 0) + words_patched n (suc first) es' m'

search_patches-total :
    (low high n first : ℕ) (es : List PatcherEntry) (m : Memory)
    → All (Reaches low high) es
    → total (search_patches n first es m).0 ≡ total es + words_patched n first es m
unfolding search_patches words_patched
search_patches-total low high zero first es m all = omega arith
search_patches-total low high (suc n) first es m all =
    let (es', m') = apply_first es first m in
    let same = (apply_first-Ran low high es first m all).same in
    let here = apply_first-total low high es first m all in
    let rest =
      search_patches-total low high n (suc first) es' m' (All-reach low high es es' same all) in
    omega (arith, here, rest)

-- No patch has been applied more often than its limit allows.
abbrev pub WithinLimit : PatcherEntry → Type 0
WithinLimit e = (e.maximum_patched_count ≡ 0) ⊎ (e.patched_count ≤ e.maximum_patched_count)

check_all-All : (es : List PatcherEntry) → check_all es ≡ true → All WithinLimit es
check_all-All [] h = tt
check_all-All (e ∷ es) h = elim (Bool-cases (succeeded (check_result e))) [
  | inl ok ↦ (ground (arith, ok), check_all-All es (rw ok at h))
  | inr bad ↦ ground (arith, h, bad)
]

All-check_all : (es : List PatcherEntry) → All WithinLimit es → check_all es ≡ true
All-check_all [] all = refl
All-check_all (e ∷ es) all =
    let here : succeeded (check_result e) ≡ true = ground (arith, all.0) in
    rw here (All-check_all es all.1)

-- The end of `Patch`: it returns, with every patch within its limit, or crashes with one beyond it.
abbrev pub IsOutcome : List PatcherEntry → Memory → Option Memory → Type 0
IsOutcome es m' outcome =
    (All WithinLimit es × (outcome ≡ some m')) ⊎ ((¬ All WithinLimit es) × (outcome ≡ none))

IsOutcome-checked :
    (es : List PatcherEntry) (m' : Memory)
    → IsOutcome es m' (if check_all es then some m' else none)
IsOutcome-checked es m' = elim (Bool-cases (check_all es)) [
  | inl ok ↦ rw ok (inl (check_all-All es ok, refl))
  | inr bad ↦ rw bad (inr (λ all. ground (arith, bad, All-check_all es all), refl))
]

-- If each patch writes within `low` words before and `high` words after its pointer, then the
-- search of `Patch` leaves every word further than that from the words it searches as it was, and
-- counts one patch for each of these words at which one succeeds, and no other. At a word,
-- whatever the counts and the memory, it counts one patch if one succeeds there and none
-- otherwise. `Patch` returns what the search leaves exactly if no count of the search passes its
-- limit, and crashes otherwise.
pub patch_pcv-IsOutcome :
    (low high table_size : ℕ) (patches : List PatcherEntry) (mapped_nso nso_size : ℕ) (m : Memory)
    (es : List PatcherEntry) (ptr : ℕ) (m' : Memory)
    → All (Reaches low high) patches
    → All (Reaches low high) es
    → let searched = search_patches (rounds nso_size table_size) mapped_nso patches m in
      Ran low high (rounds nso_size table_size) mapped_nso patches m searched
      × (total (apply_first es ptr m').0 ≡ total es + (if one_succeeds es ptr m' then 1 else 0))
      × (total searched.0
          ≡ total patches + words_patched (rounds nso_size table_size) mapped_nso patches m)
      × IsOutcome searched.0 searched.1 (patch_pcv table_size patches mapped_nso nso_size m)
unfolding patch_pcv
patch_pcv-IsOutcome low high table_size patches mapped_nso nso_size m es ptr m' all each =
    let searched = search_patches (rounds nso_size table_size) mapped_nso patches m in
    (
      search_patches-Ran low high (rounds nso_size table_size) mapped_nso patches m all,
      apply_first-total low high es ptr m' each,
      search_patches-total low high (rounds nso_size table_size) mapped_nso patches m all,
      IsOutcome-checked searched.0 searched.1,
    )

-- ===== src/Common/Memmem.antt =====
-- common/src/memmem.c: the search for a block of bytes in another. A pointer that is `NULL` is
-- `none`, and the result is the offset from the start of the haystack.
pub mod First
use horizon_oc.Prelude.{
  length, ltb, ◌==◌, if◌then◌else◌, ℕ, zero, suc, ◌-◌, Bool, true, false, Option, none, some, List,
  [], ◌∷◌,
}

-- The inner loop: `found` is 1 at the end if the needle stands at the start of these bytes.
unfoldable pub found_at : List ℕ → List ℕ → Bool
found_at [] hay = true
found_at (q ∷ needle) [] = false
found_at (q ∷ needle) (c ∷ hay) = let rest = found_at needle hay in if c == q then rest else false

-- The outer loop, for the pointers left, from the offset `p` of the bytes `hay` on.
unfoldable pub search : ℕ → ℕ → List ℕ → List ℕ → Option ℕ
unfolding found_at
search zero p needle hay = none
search (suc n) p needle [] = if found_at needle [] then some p else none
search (suc n) p needle (c ∷ hay) =
    let rest = search n (suc p) needle hay in if found_at needle (c ∷ hay) then some p else rest

-- `memmem_impl`.
unfoldable pub memmem_impl : Option (List ℕ) → Option (List ℕ) → Option ℕ
unfolding search
memmem_impl none needle = none
memmem_impl (some hay) none = some 0
memmem_impl (some hay) (some needle) =
    if length hay == 0
    then none
    else if length needle == 0
    then some 0
    else if ltb (length hay) (length needle)
    then none
    else search (suc (length hay - length needle)) 0 needle hay

-- ===== src/Loader/Pcv/Search.antt =====
-- The loops of `Patch` in oc/pcv/pcv_mariko.cpp and oc/pcv/pcv_erista.cpp: at each word the first
-- patch that applies, and at the end the counts. The patches are a parameter.
pub mod Frame
use horizon_oc.Prelude.{
  ◌&&◌, if◌then◌else◌, ℕ, zero, suc, Bool, true, Option, none, some, List, [], ◌∷◌,
}
use horizon_oc.Loader.Memory.{Memory, rounds}
use horizon_oc.Loader.Patcher.{PatcherEntry, search_and_apply, succeeded, check_result}

-- The loop over the patches at one pointer, up to the first that succeeds.
unfoldable pub apply_first : List PatcherEntry → ℕ → Memory → List PatcherEntry × Memory
apply_first [] ptr m = ([], m)
apply_first (e ∷ es) ptr m =
    let (res, (e', m')) = search_and_apply e ptr m in
    let (es', m'') = apply_first es ptr m' in
    if succeeded res then (e' ∷ es, m') else (e' ∷ es', m'')

-- The loop over the words.
unfoldable pub search_patches : ℕ → ℕ → List PatcherEntry → Memory → List PatcherEntry × Memory
unfolding apply_first
search_patches zero ptr es m = (es, m)
search_patches (suc n) ptr es m =
    let (es', m') = apply_first es ptr m in search_patches n (suc ptr) es' m'

-- The loop over the results.
abbrev pub check_all : List PatcherEntry → Bool
check_all [] = true
check_all (e ∷ es) = succeeded (check_result e) && check_all es

-- `Patch` with its list of patches, on a module of `nso_size` bytes; `none` is `CRASH`.
unfoldable pub patch_pcv : ℕ → List PatcherEntry → ℕ → ℕ → Memory → Option Memory
unfolding search_patches
patch_pcv table_size patches mapped_nso nso_size m =
    let (es, m') = search_patches (rounds nso_size table_size) mapped_nso patches m in
    if check_all es then some m' else none

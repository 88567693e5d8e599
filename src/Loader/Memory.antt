-- ===== src/Loader/Memory.antt =====
-- The memory that a module of the system is mapped to, as 32-bit words by the number of the word,
-- and the loops of the loader over it. A pointer is the number of its word.
use horizon_oc.Prelude.{
  ◌==◌, leb, truthy, if◌then◌else◌, ℕ, suc, ◌+◌, ◌-◌, ◌/◌, Bool, true, ◌&&◌, List, [], ◌∷◌,
}

abbrev pub Memory : Type 0
Memory = ℕ → ℕ

-- `PATCH_OFFSET`.
abbrev pub patch_offset : ℕ → ℕ → Memory → Memory
patch_offset ptr value m = λ a. if a == ptr then value else m a

-- `memcmp` with a list of words: whether they stand from `ptr` on.
abbrev pub matches : Memory → ℕ → List ℕ → Bool
matches m ptr [] = true
matches m ptr (w ∷ ws) = (m ptr == w) && matches m (suc ptr) ws

-- The rounds of a loop over the words of a module of `size` bytes that leaves the last `need` bytes
-- for what is read at a pointer.
abbrev pub rounds : ℕ → ℕ → ℕ
rounds size need = if leb need size then suc ((size - need) / 4) else 0

-- A write that a setting of 0 leaves out.
abbrev pub patch_if : ℕ → ℕ → Memory → Memory
patch_if value ptr m = if truthy value then patch_offset ptr value m else m

-- The writes of a voltage at five rows of three words.
abbrev pub patch_rows : ℕ → ℕ → Memory → Memory
patch_rows v ptr m = patch_offset (ptr + 12) v (
    patch_offset (ptr + 9) v
      (patch_offset (ptr + 6) v (patch_offset (ptr + 3) v (patch_offset ptr v m))))

-- Writes at offsets from a pointer, the first first.
abbrev pub patch_all : List (ℕ × ℕ) → ℕ → Memory → Memory
patch_all [] ptr m = m
patch_all (p ∷ ps) ptr m = patch_all ps ptr (patch_offset (ptr + p.0) p.1 m)

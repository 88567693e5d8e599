-- ===== src/Integrations/Block.antt =====
-- Where the block is found, and what is then told.
use horizon_oc.Prelude.{
  Bool, false, true, if◌then◌else◌, ltb, ne→==, sym, ◌==◌, ℕ, zero, suc, ◌+◌, ◌*◌, ◌<◌, ◌≡◌, ◌≢◌,
  refl, ap, ◌∙◌, true, Option, none, some, arith, Bool-cases, inl, inr,
}
use horizon_oc.Integrations.{
  Bytes, SaltyNx, magic_of, told_from, search_loop, search_shared_memory_block, locate,
  get_salty_nx_fps,
}

abbrev pub IsBlock : Bytes → ℕ → Type 0
IsBlock b offset = magic_of b offset ≡ 0x465053

-- What a search of `n` words from an offset on is to give: the first block, or none where none is.
pub data FirstBlock (b : Bytes) (n offset : ℕ) : Option ℕ → Type 0 where
  block_at :
      (k at : ℕ)
      → k < n
      → at ≡ offset + 4 * k
      → IsBlock b at
      → ((j : ℕ) → j < k → ¬ IsBlock b (offset + 4 * j))
      → FirstBlock b n offset (some at)
  no_block : ((j : ℕ) → j < n → ¬ IsBlock b (offset + 4 * j)) → FirstBlock b n offset none

plus_zero : (o : ℕ) → o + 4 * 0 ≡ o
plus_zero o = omega arith

later : (o k : ℕ) → o + 4 + 4 * k ≡ o + 4 * suc k
later o k = omega arith

not_before :
    (b : Bytes) (o k : ℕ)
    → ¬ IsBlock b o
    → ((j : ℕ) → j < k → ¬ IsBlock b (o + 4 + 4 * j))
    → (j : ℕ) → j < suc k
    → ¬ IsBlock b (o + 4 * j)
not_before b o k here after zero l e = here (ap (magic_of b) (sym (plus_zero o)) ∙ e)
not_before b o k here after (suc j) l e = after j (omega arith) (ap (magic_of b) (later o j) ∙ e)

one_later :
    (b : Bytes) (n o : ℕ) (r : Option ℕ)
    → ¬ IsBlock b o
    → FirstBlock b n (o + 4) r
    → FirstBlock b (suc n) o r
one_later b n o _ here (block_at k at l e is before) =
    block_at (suc k) at (omega arith) (e ∙ later o k) is (not_before b o k here before)
one_later b n o _ here (no_block before) = no_block (not_before b o n here before)

search_loop-FirstBlock : (b : Bytes) (n o : ℕ) → FirstBlock b n o (search_loop b n o)
unfolding search_loop
search_loop-FirstBlock b zero o = no_block (λ j l. absurd (omega arith))
search_loop-FirstBlock b (suc n) o = elim (Bool-cases (magic_of b o == 0x465053)) [
  | inl hit ↦
      let is : IsBlock b o = ground (arith, hit) in
      rw hit (block_at 0 o (omega arith) (sym (plus_zero o)) is (λ j l. absurd (omega arith)))
  | inr miss ↦
      let not_here : ¬ IsBlock b o = λ e. ground (arith, miss, e) in
      rw miss
        (one_later b n o (search_loop b n (o + 4)) not_here (search_loop-FirstBlock b n (o + 4)))
]

search-FirstBlock : (b : Bytes) → FirstBlock b 1024 0 (search_shared_memory_block b)
unfolding search_shared_memory_block
search-FirstBlock b = search_loop-FirstBlock b 1024 0

-- What is told of a block at an offset, or of none: the byte behind its first word, if this lies in
-- the 4096 bytes of the memory.
abbrev pub told_of : ℕ → Bytes → SaltyNx → Option ℕ → Option (ℕ × SaltyNx)
told_of tid b s none = some (254, record s { nx_fps = none; prev_tid = tid })
told_of tid b s (some offset) =
    if ltb (offset + 4) 4096
    then some (b (offset + 4), record s { nx_fps = some offset; prev_tid = tid })
    else none

both_branches {ℓ} :
    {A : Type ℓ} (b c : Bool) (x y z : A)
    → b ≡ true
    → c ≡ false
    → (if b then (if c then x else y) else z) ≡ y
both_branches b c x y z e e' = rw (e, e') refl

told_from-told_of :
    (tid : ℕ) (b : Bytes) (s : SaltyNx) (block : Option ℕ)
    → told_from b (record s { nx_fps = block; prev_tid = tid }) ≡ told_of tid b s block
told_from-told_of tid b s none = refl
told_from-told_of tid b s (some offset) = elim (Bool-cases (ltb (offset + 4) 4096)) [
  | inl inside ↦ rw inside refl
  | inr behind ↦ rw behind refl
]

locate-fresh :
    (tid : ℕ) (b : Bytes) (s : SaltyNx)
    → s.prev_tid ≢ tid
    → locate tid b s ≡ record s { nx_fps = search_shared_memory_block b; prev_tid = tid }
unfolding locate
locate-fresh tid b s other = rw (ne→== s.prev_tid tid other) refl

-- When the shared memory is in use and an application runs that was not asked for before,
-- GetSaltyNXFPS finds the first block of the memory and remembers it. It tells the byte of the frame
-- rate, but for a block in the last four bytes, where it reads behind the memory; without a block it
-- tells 254.
pub get_salty_nx_fps-FirstBlock :
    (tid : ℕ) (b : Bytes) (s : SaltyNx)
    → s.shared_memory_used ≡ true
    → tid ≢ 0
    → s.prev_tid ≢ tid
    → (block : Option ℕ) × FirstBlock b 1024 0 block
      × (get_salty_nx_fps tid b s ≡ told_of tid b s block)
unfolding get_salty_nx_fps
get_salty_nx_fps-FirstBlock tid b s used nonzero other = (
  search_shared_memory_block b,
  search-FirstBlock b,
  both_branches s.shared_memory_used (tid == 0) _ (told_from b (locate tid b s)) _ used
        (ne→== tid 0 nonzero)
      ∙ ap (told_from b) (locate-fresh tid b s other)
      ∙ told_from-told_of tid b s (search_shared_memory_block b),
)

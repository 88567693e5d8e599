-- ===== src/Board/Hijack/Cache/Ends.antt =====
-- The search ends, and where a page is enough for the table.
use horizon_oc.Prelude.{
  u64, ltb, ltb→lt, ◌>>=◌, ◌*◌, ◌%◌, ◌==◌, if◌then◌else◌, ℕ, zero, suc, ◌+◌, ◌^◌, ◌≤◌, ◌<◌, ◌≡◌,
  ◌≢◌, refl, Bool, true, false, Option, some, List, arith, Bool-cases, Option-cases, inl, inr,
}
use horizon_oc.Board.Hijack.Cache.{
  MemoryInfo, DebugMemory, CacheResult, goes_on, table_at, no_table, out_of_buffer, regions_loop,
  pages_loop, or_next, or_search, is_heap, page_size,
}

-- A query answers with a region of whole pages that ends above the address, and within 64 bits.
pub record IsRegionFor (address : ℕ) (info : MemoryInfo) : Type 0 where
  pub above : address < info.addr + info.size
  pub within : info.addr + info.size ≤ 2 ^ 64
  pub whole : info.size % 4096 ≡ 0
  pub size : info.size < 2 ^ 64

abbrev pub Covers : DebugMemory → Type 0
Covers m =
    (address : ℕ) (info : MemoryInfo) → m.query address ≡ some info → IsRegionFor address info

abbrev Finished {ℓ} : {A : Type ℓ} → Option A → Type ℓ
Finished {A = A} o = (r : A) × (o ≡ some r)

if-Finished {ℓ} :
    {A : Type ℓ} (b : Bool) (x y : Option A)
    → (b ≡ true → Finished x)
    → Finished y
    → Finished (if b then x else y)
if-Finished true x y fx fy = fx refl
if-Finished false x y fx fy = fy

then-Finished {ℓ κ} :
    {A : Type ℓ} {B : Type κ} (o : Option A) (f : A → Option B)
    → Finished o
    → ((a : A) → Finished (f a))
    → Finished (o >>= f)
then-Finished o f (a, e) h = let (b, e') = h a in (b, rw e e')

or_next-Finished :
    (filled : List ℕ) (result : CacheResult) (rest : Option (CacheResult × List ℕ))
    → Finished rest
    → Finished (or_next filled result rest)
or_next-Finished filled goes_on rest f = f
or_next-Finished filled (table_at address table) rest f = ((table_at address table, filled), refl)
or_next-Finished filled no_table rest f = ((no_table, filled), refl)
or_next-Finished filled out_of_buffer rest f = ((out_of_buffer, filled), refl)

or_search-Finished :
    (result : CacheResult) (rest : Option CacheResult)
    → Finished rest
    → Finished (or_search result rest)
or_search-Finished goes_on rest f = f
or_search-Finished (table_at address table) rest f = (table_at address table, refl)
or_search-Finished no_table rest f = (no_table, refl)
or_search-Finished out_of_buffer rest f = (out_of_buffer, refl)

-- The next page lies within the region or at its end.
next_page :
    (size n base : ℕ)
    → size % 4096 ≡ 0
    → base % 4096 ≡ 0
    → size < 2 ^ 64
    → base < size
    → size < base + suc n * 4096
    → (u64 (base + 4096) % 4096 ≡ 0)
      × (u64 (base + 4096) ≤ size)
      × (size < u64 (base + 4096) + n * 4096)
next_page size n base whole at_page small inside enough =
    let same : u64 (base + 4096) ≡ base + 4096 = omega arith in
    rw same (omega arith, omega arith, omega arith)

pages_loop-ends :
    (m : DebugMemory) (info : MemoryInfo) (n base : ℕ) (buffer : List ℕ)
    → info.size % 4096 ≡ 0
    → info.size < 2 ^ 64
    → base % 4096 ≡ 0
    → base ≤ info.size
    → info.size < base + n * 4096
    → Finished (pages_loop m info n base buffer)
unfolding pages_loop
pages_loop-ends m info zero base buffer whole small at_page below enough = absurd (omega arith)
pages_loop-ends m info (suc n) base buffer whole small at_page below enough =
    if-Finished (ltb base info.size) _ _
      (λ inside.
        let (at_next, below_next, left) =
          next_page info.size n base whole at_page small (ltb→lt base info.size inside) enough in
        let size = if ltb info.size page_size then info.size else page_size in
        elim (Option-cases (m.read_bytes (u64 (base + info.addr)) size)) [
          | inl fails ↦ rw fails ((goes_on, buffer), refl)
          | inr (bytes, ok) ↦ rw ok (
              or_next-Finished _ _ _ (
                pages_loop-ends m info n (u64 (base + page_size)) _ whole small at_next below_next
                  left))
        ])
      ((goes_on, buffer), refl)

-- The next address lies above this one, unless it is 0.
above :
    (address end n : ℕ)
    → address < end
    → end ≤ 2 ^ 64
    → 2 ^ 64 ≤ address + suc n
    → (u64 end == 0) ≡ false
    → (u64 end < 2 ^ 64) × (2 ^ 64 ≤ u64 end + n)
above address end n low high enough miss =
    let nonzero : u64 end ≢ 0 = λ e. ground (arith, miss, e) in
    (omega arith, omega (arith, nonzero))

-- When every query answers with a region of whole pages that ends above the address and within 64
-- bits, the search ends, after at most as many queries as there are addresses, and at most as
-- many rounds for a region as there are pages of all addresses.
pub regions_loop-ends :
    (m : DebugMemory) (pages n address : ℕ) (buffer : List ℕ)
    → Covers m
    → address < 2 ^ 64
    → 2 ^ 64 ≤ address + n
    → 2 ^ 64 ≤ pages * 4096
    → (result : CacheResult) × (regions_loop m pages n address buffer ≡ some result)
unfolding regions_loop
regions_loop-ends m pages zero address buffer covers low enough many = absurd (omega arith)
regions_loop-ends m pages (suc n) address buffer covers low enough many =
    elim (Option-cases (m.query address)) [
      | inl fails ↦ (no_table, rw (fails, regions_loop) refl)
      | inr (info, found) ↦
          let region = covers address info found in
          elim (Bool-cases (u64 (info.addr + info.size) == 0)) [
            | inl stop ↦ (no_table, rw (found, regions_loop, stop) refl)
            | inr go ↦
                let (small, left) =
                  above address (info.addr + info.size) n region.above region.within enough go in
                let next = u64 (info.addr + info.size) in
                let (result, e) =
                  if-Finished (is_heap info) _ (regions_loop m pages n next buffer)
                    (λ heap.
                      then-Finished (pages_loop m info pages 0 buffer)
                        (λ r. or_search r.0 (regions_loop m pages n next r.1))
                        (pages_loop-ends m info pages 0 buffer region.whole region.size refl
                          (omega arith) (omega (arith, region.size)))
                        (λ r.
                          or_search-Finished r.0 _
                            (regions_loop-ends m pages n next r.1 covers small left many)))
                    (regions_loop-ends m pages n next buffer covers small left many) in
                (result, rw (found, regions_loop, go) e)
          ]
    ]

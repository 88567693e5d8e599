-- ===== src/Board/Hijack/Cache.antt =====
-- `CacheGpuVoltTable` of hoc-clk/sysmodule/src/board/board_volt.cpp: the search of the memory of pcv for
-- its table of GPU voltages. Bytes are numbers.
pub mod Ends
pub mod Page
use horizon_oc.Prelude.{
  ◌>>=◌, truthy, length, take, u64, bit_and, ltb, ◌==◌, ◌&&◌, if◌then◌else◌, ℕ, zero, suc, ◌+◌, ◌%◌,
  Bool, Option, none, some, List, [], ◌∷◌, ◌++◌,
}
use horizon_oc.Common.Memmem.{memmem_impl, found_at}

-- `MemoryInfo`, as far as it is read.
pub record MemoryInfo : Type 0 where
  pub addr : ℕ
  pub size : ℕ
  pub perm : ℕ
  pub mem_type : ℕ

-- What `svcQueryDebugProcessMemory` and `svcReadDebugProcessMemory` answer; `none` is a failure.
pub record DebugMemory : Type 0 where
  pub query : ℕ → Option MemoryInfo
  pub read_bytes : ℕ → ℕ → Option (List ℕ)

abbrev pub page_size : ℕ
page_size = 4096

-- `reg`: 600000, 12500 and 1400000.
abbrev pub regulator_bytes : List ℕ
regulator_bytes = 0xC0 ∷ 0x27 ∷ 0x09 ∷ 0 ∷ 0xD4 ∷ 0x30 ∷ 0 ∷ 0 ∷ 0xC0 ∷ 0x5C ∷ 0x15 ∷ 0 ∷ []

-- `vmax`: 800.
abbrev pub vmax_bytes : List ℕ
vmax_bytes = 0x20 ∷ 0x03 ∷ 0 ∷ 0 ∷ []

abbrev pub voltage_table_offset : ℕ
voltage_table_offset = 312

abbrev pub drop : ℕ → List ℕ → List ℕ
drop zero xs = xs
drop (suc n) [] = []
drop (suc n) (x ∷ xs) = drop n xs

-- How a search ends: with the address and the bytes of the table, without one, or by an access
-- outside the buffer; or it goes on.
pub data CacheResult : Type 0 where
  goes_on : CacheResult
  table_at : ℕ → List ℕ → CacheResult
  no_table : CacheResult
  out_of_buffer : CacheResult

-- The two accesses to the table, which starts with these bytes of the buffer.
abbrev pub table_from : ℕ → List ℕ → CacheResult
table_from offset bytes =
    if ltb (length bytes) 4
    then out_of_buffer
    else if found_at vmax_bytes bytes
    then (if ltb (length bytes) 768 then out_of_buffer else table_at offset (take 768 bytes))
    else no_table

-- What follows `memmem_impl`.
abbrev pub page_answer : ℕ → List ℕ → Option ℕ → CacheResult
page_answer address buffer none = goes_on
page_answer address buffer (some index) =
    table_from (u64 (address + (index + voltage_table_offset)))
      (drop (index + voltage_table_offset) buffer)

-- The round for a page that was read; the address is that of the buffer.
unfoldable pub search_page : ℕ → List ℕ → CacheResult
search_page address buffer =
    page_answer address buffer (memmem_impl (some buffer) (some regulator_bytes))

-- What follows a page: the end of the loop, or the rest of it.
abbrev pub or_next :
    List ℕ → CacheResult → Option (CacheResult × List ℕ) → Option (CacheResult × List ℕ)
or_next filled goes_on rest = rest
or_next filled (table_at address table) rest = some (table_at address table, filled)
or_next filled no_table rest = some (no_table, filled)
or_next filled out_of_buffer rest = some (out_of_buffer, filled)

-- The loop over the pages of a region, with the rounds that are left; `none` is that they do not
-- suffice. The buffer keeps what was read before it where a page is shorter.
unfoldable pub pages_loop :
    DebugMemory → MemoryInfo → ℕ → ℕ → List ℕ → Option (CacheResult × List ℕ)
pages_loop m info zero base buffer = none
pages_loop m info (suc n) base buffer =
    let size = if ltb info.size page_size then info.size else page_size in
    let here : Option (CacheResult × List ℕ) = elim (m.read_bytes (u64 (base + info.addr)) size) [
      | none ↦ some (goes_on, buffer)
      | some bytes ↦
          (let filled = bytes ++ drop (length bytes) buffer in
            let rest = pages_loop m info n (u64 (base + page_size)) filled in
            or_next filled (search_page (u64 (base + info.addr)) filled) rest)
    ] in
    if ltb base info.size then here else some (goes_on, buffer)

abbrev pub is_heap : MemoryInfo → Bool
is_heap info = truthy info.size && (bit_and info.perm 3 == 3) && (info.mem_type % 256 == 4)

-- What follows the pages of a region: the end of the search, or the rest of it.
abbrev pub or_search : CacheResult → Option CacheResult → Option CacheResult
or_search goes_on rest = rest
or_search (table_at address table) rest = some (table_at address table)
or_search no_table rest = some no_table
or_search out_of_buffer rest = some out_of_buffer

-- Both outer loops, with the rounds for a region and the queries that are left; `none` is that they
-- do not suffice.
unfoldable pub regions_loop : DebugMemory → ℕ → ℕ → ℕ → List ℕ → Option CacheResult
regions_loop m pages zero address buffer = none
regions_loop m pages (suc n) address buffer = elim (m.query address) [
  | none ↦ some no_table
  | some info ↦
      (let next = u64 (info.addr + info.size) in
        let skip = regions_loop m pages n next buffer in
        if next == 0
        then some no_table
        else if is_heap info
        then (pages_loop m info pages 0 buffer >>= λ r.
            or_search r.0 (regions_loop m pages n next r.1))
        else skip)
]

-- ===== src/Board/Hijack/Cache/Page.antt =====
-- A page in which the bytes of the regulator are found: whether the table lies within it.
use horizon_oc.Prelude.{
  u64, length, take, ltb, lt→ltb, if◌then◌else◌, ℕ, zero, suc, ◌+◌, ◌-◌, ◌≤◌, ◌<◌, ◌≡◌, refl, ap,
  ◌∙◌, false, some, List, [], ◌∷◌, arith,
}
use horizon_oc.Common.Memmem.{memmem_impl, found_at}
use horizon_oc.Board.Hijack.Cache.{
  table_at, no_table, out_of_buffer, page_answer, search_page, table_from, drop, regulator_bytes,
  vmax_bytes, voltage_table_offset, page_size,
}

length-drop : (n : ℕ) (xs : List ℕ) → length (drop n xs) ≡ length xs - n
length-drop zero xs = omega arith
length-drop (suc n) [] = omega arith
length-drop (suc n) (x ∷ xs) = omega (arith, length-drop n xs)

not_ltb : (a b : ℕ) → b ≤ a → ltb a b ≡ false
not_ltb a b h = ground arith

module _ (address index : ℕ) (buffer : List ℕ) (whole : length buffer ≡ page_size)
    (hit : memmem_impl (some buffer) (some regulator_bytes) ≡ some index) where
  -- The bytes of the page from the table on.
  abbrev from_table : List ℕ
  from_table = drop (index + voltage_table_offset) buffer

  from_length : length from_table ≡ page_size - (index + voltage_table_offset)
  from_length =
      length-drop (index + voltage_table_offset) buffer
      ∙ ap (λ n. n - (index + voltage_table_offset)) whole

  at_hit :
      search_page address buffer
      ≡ table_from (u64 (address + (index + voltage_table_offset))) from_table
  unfolding search_page
  at_hit = ap (page_answer address buffer) hit

  -- When the regulator is at least 1080 bytes before the end of the page, the table is read from it.
  pub search_page-inside :
      index + 1080 ≤ page_size
      → search_page address buffer ≡ (
          if found_at vmax_bytes from_table
          then table_at (u64 (address + (index + voltage_table_offset))) (take 768 from_table)
          else no_table)
  search_page-inside room =
      at_hit
      ∙ rw
          (
            not_ltb (length from_table) 4 (omega (arith, from_length)),
            not_ltb (length from_table) 768 (omega (arith, from_length)),
          )
          refl

  -- When it stands in the last 315 bytes, the comparison reads behind the buffer.
  pub search_page-outside : page_size < index + 316 → search_page address buffer ≡ out_of_buffer
  search_page-outside late =
      at_hit ∙ rw (lt→ltb (length from_table) 4 (omega (arith, from_length))) refl

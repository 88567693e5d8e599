-- ===== src/Common/Crc32.antt =====
-- common/src/crc32.cpp: the checksum of a buffer and of a file. The reads of a file are a parameter:
-- the buffers that `fread` fills, of 1 to 1024 bytes each, or `none` when the file does not open.
pub mod Detects
pub mod Reference
use horizon_oc.Prelude.{
  u32, u32_max, ℕ, zero, suc, ◌-◌, ◌/◌, ◌^◌, bit_and, bit_xor, ◌≡◌, refl, Option, none, some, List,
  [], ◌∷◌, ◌++◌,
}

abbrev pub polynomial : ℕ
polynomial = 0xEDB88320

-- `crc = (crc >> 1) ^ (0xEDB88320 & -(crc & 1))`.
unfoldable pub crc_bit : ℕ → ℕ
crc_bit crc = bit_xor (crc / 2) (bit_and polynomial (u32 (2 ^ 32 - bit_and crc 1)))

-- The inner loop, for `n` bits.
unfoldable pub crc_bits : ℕ → ℕ → ℕ
unfolding crc_bit
crc_bits zero crc = crc
crc_bits (suc n) crc = crc_bits n (crc_bit crc)

-- One byte.
unfoldable pub crc_byte : ℕ → ℕ → ℕ
unfolding crc_bits
crc_byte crc b = crc_bits 8 (bit_xor crc b)

-- The outer loop.
unfoldable pub crc_loop : ℕ → List ℕ → ℕ
unfolding crc_byte
crc_loop crc [] = crc
crc_loop crc (b ∷ bs) = crc_loop (crc_byte crc b) bs

-- `crc32`; the last step is `~crc`.
unfoldable pub crc32 : List ℕ → ℕ
unfolding crc_loop
crc32 bytes = u32_max - crc_loop u32_max bytes

-- The same lines in `checksum_file`.
unfoldable pub file_bit : ℕ → ℕ
file_bit crc = bit_xor (crc / 2) (bit_and 0xEDB88320 (u32 (2 ^ 32 - bit_and crc 1)))

unfoldable pub file_bits : ℕ → ℕ → ℕ
file_bits zero crc = crc
file_bits (suc n) crc = file_bits n (file_bit crc)

-- Its loop over a buffer.
unfoldable pub buffer_loop : ℕ → List ℕ → ℕ
buffer_loop crc [] = crc
buffer_loop crc (b ∷ bs) = buffer_loop (file_bits 8 (bit_xor crc b)) bs

-- Its loop over what `fread` gives.
unfoldable pub file_loop : ℕ → List (List ℕ) → ℕ
file_loop crc [] = crc
file_loop crc (buffer ∷ buffers) = file_loop (buffer_loop crc buffer) buffers

-- `checksum_file`.
unfoldable pub checksum_file : Option (List (List ℕ)) → ℕ
unfolding file_loop
checksum_file none = 0
checksum_file (some buffers) = u32_max - file_loop u32_max buffers

-- The bytes of a file that is read in buffers.
abbrev pub contents : List (List ℕ) → List ℕ
contents [] = []
contents (buffer ∷ buffers) = buffer ++ contents buffers

pub crc_loop-append :
    (crc : ℕ) (xs ys : List ℕ) → crc_loop crc (xs ++ ys) ≡ crc_loop (crc_loop crc xs) ys
unfolding crc_loop
crc_loop-append crc [] ys = refl
crc_loop-append crc (x ∷ xs) ys = crc_loop-append (crc_byte crc x) xs ys

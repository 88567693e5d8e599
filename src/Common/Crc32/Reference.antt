-- ===== src/Common/Crc32/Reference.antt =====
-- The checksums of a buffer and of a file against the division that defines them.
use horizon_oc.Prelude.{
  ◌==◌, if◌then◌else◌, ℕ, zero, suc, ◌-◌, ◌/◌, ◌%◌, bit_xor, ◌≡◌, inl, inr, refl, ap, ◌∙◌, some,
  List, [], ◌∷◌, ◌++◌,
}
use horizon_oc.Common.Crc32.{
  crc_bit, crc_bits, crc_byte, crc_loop, crc32, file_bit, file_bits, buffer_loop, file_loop,
  checksum_file, contents,
}
use horizon_oc.Common.Crc32.Detects.{even_or_odd, crc_bit-even, crc_bit-odd}

-- A step of the division by the reversed polynomial 0x04C11DB7.
abbrev divide_bit : ℕ → ℕ
divide_bit c = if c % 2 == 0 then c / 2 else bit_xor (c / 2) 0xEDB88320

unfoldable divide_bits : ℕ → ℕ → ℕ
divide_bits zero c = c
divide_bits (suc n) c = divide_bits n (divide_bit c)

unfoldable divide_bytes : ℕ → List ℕ → ℕ
divide_bytes c [] = c
divide_bytes c (b ∷ bs) = divide_bytes (divide_bits 8 (bit_xor c b)) bs

-- The CRC-32 of a list of bytes, from all ones on, and complemented.
unfoldable pub reference_crc : List ℕ → ℕ
unfolding divide_bytes divide_bits
reference_crc bytes = 0xFFFFFFFF - divide_bytes 0xFFFFFFFF bytes

bit-divides : (c : ℕ) → crc_bit c ≡ divide_bit c
bit-divides c = elim (even_or_odd c) [
  | inl even ↦ crc_bit-even c even ∙ rw even refl
  | inr odd ↦ crc_bit-odd c odd ∙ rw odd refl
]

bits-divide : (n c : ℕ) → crc_bits n c ≡ divide_bits n c
unfolding crc_bits divide_bits
bits-divide zero c = refl
bits-divide (suc n) c = bits-divide n (crc_bit c) ∙ ap (divide_bits n) (bit-divides c)

loop-divides : (c : ℕ) (bytes : List ℕ) → crc_loop c bytes ≡ divide_bytes c bytes
unfolding crc_loop crc_byte divide_bytes
loop-divides c [] = refl
loop-divides c (b ∷ bs) =
    loop-divides (crc_bits 8 (bit_xor c b)) bs
    ∙ ap (λ d. divide_bytes d bs) (bits-divide 8 (bit_xor c b))

file_bit-divides : (c : ℕ) → file_bit c ≡ divide_bit c
unfolding file_bit crc_bit
file_bit-divides c = bit-divides c

file_bits-divide : (n c : ℕ) → file_bits n c ≡ divide_bits n c
unfolding file_bits divide_bits
file_bits-divide zero c = refl
file_bits-divide (suc n) c =
    file_bits-divide n (file_bit c) ∙ ap (divide_bits n) (file_bit-divides c)

-- A buffer goes on where the one before it has stopped.
buffer-divides :
    (c : ℕ) (buffer rest : List ℕ)
    → divide_bytes (buffer_loop c buffer) rest ≡ divide_bytes c (buffer ++ rest)
unfolding buffer_loop divide_bytes
buffer-divides c [] rest = refl
buffer-divides c (b ∷ bs) rest =
    buffer-divides (file_bits 8 (bit_xor c b)) bs rest
    ∙ ap (λ d. divide_bytes d (bs ++ rest)) (file_bits-divide 8 (bit_xor c b))

file-divides :
    (c : ℕ) (buffers : List (List ℕ)) → file_loop c buffers ≡ divide_bytes c (contents buffers)
unfolding file_loop divide_bytes
file-divides c [] = refl
file-divides c (buffer ∷ buffers) =
    file-divides (buffer_loop c buffer) buffers ∙ buffer-divides c buffer (contents buffers)

-- `crc32` of the bytes of a file is their CRC-32, and `checksum_file` gives the same, however the
-- reads cut the file into buffers.
pub checksum_file-crc32 :
    (buffers : List (List ℕ))
    → (crc32 (contents buffers) ≡ reference_crc (contents buffers))
      × (checksum_file (some buffers) ≡ reference_crc (contents buffers))
unfolding checksum_file crc32 reference_crc
checksum_file-crc32 buffers = (
  ap (λ r. 0xFFFFFFFF - r) (loop-divides 0xFFFFFFFF (contents buffers)),
  ap (λ r. 0xFFFFFFFF - r) (file-divides 0xFFFFFFFF buffers),
)

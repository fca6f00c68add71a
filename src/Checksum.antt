-- ===== src/Checksum.antt =====
-- src/include/crc.h, which funcs.h repeats: the CRC-32 of a buffer and of a file, from a table.
-- A shift to the right is a division. The table is the list of its 256 words.
pub mod Table
mod Tests
use Prim.Native.Nat.{bit_xor}
use dmmr_orbit.Base.{
  ℕ, zero, suc, ◌+◌, ◌/◌, ◌%◌, ◌==◌, if◌then◌else◌, Option, none, some, List, [], ◌∷◌, ◌++◌, get_or,
  get_elem?,
}

abbrev pub poly : ℕ
poly = 0xEDB88320

-- One round of the inner loop of `generate_crc32_table`.
unfoldable pub crc_bit : ℕ → ℕ
crc_bit crc = if crc % 2 == 1 then bit_xor (crc / 2) poly else crc / 2

unfoldable pub crc_bits : ℕ → ℕ → ℕ
crc_bits zero crc = crc
crc_bits (suc n) crc = crc_bits n (crc_bit crc)

-- The entries from index `i` on.
unfoldable pub table_rounds : ℕ → ℕ → List ℕ
table_rounds zero i = []
table_rounds (suc n) i = crc_bits 8 i ∷ table_rounds n (i + 1)

unfoldable pub generate_crc32_table : List ℕ
generate_crc32_table = table_rounds 256 0

-- The body of the loops over bytes; the index is a byte, so the case of a read out of range is
-- never taken.
abbrev pub crc_byte : List ℕ → ℕ → ℕ → ℕ
crc_byte table crc b = bit_xor (crc / 256) (get_or table (bit_xor crc b % 256) 0)

unfoldable pub crc_loop : List ℕ → ℕ → List ℕ → ℕ
crc_loop table crc [] = crc
crc_loop table crc (b ∷ bs) = crc_loop table (crc_byte table crc b) bs

unfoldable pub crc32_buffer : List ℕ → List ℕ → ℕ
unfolding crc_loop
crc32_buffer table bytes = bit_xor (crc_loop table 0xFFFFFFFF bytes) 0xFFFFFFFF

-- The reads of a file, each of which returned a piece that is not empty.
unfoldable pub crc_pieces : List ℕ → ℕ → List (List ℕ) → ℕ
unfolding crc_loop
crc_pieces table crc [] = crc
crc_pieces table crc (p ∷ ps) = crc_pieces table (crc_loop table crc p) ps

-- `none` is a file that cannot be opened.
unfoldable pub crc32_file : List ℕ → Option (List (List ℕ)) → ℕ
unfolding crc_pieces
crc32_file table none = 0
crc32_file table (some pieces) = bit_xor (crc_pieces table 0xFFFFFFFF pieces) 0xFFFFFFFF

-- ===== src/Checksum/Tests.antt =====
-- The checksum of "123456789", read in two pieces.
use dmmr_orbit.Base.{ℕ, ◌≡◌, refl, arith, some, List, [], ◌∷◌, concat}
use dmmr_orbit.Checksum.{generate_crc32_table, crc32_file, crc_bits, crc_bit}
use dmmr_orbit.Checksum.Table.{crc32, bitwise, crc32_file_lem}

abbrev pieces : List (List ℕ)
pieces = (49 ∷ 50 ∷ 51 ∷ 52 ∷ []) ∷ (53 ∷ 54 ∷ 55 ∷ 56 ∷ 57 ∷ []) ∷ []

crc32_file_example : crc32_file generate_crc32_table (some pieces) ≡ crc32 (concat pieces)
crc32_file_example = crc32_file_lem pieces (
  omega arith,
  (
    omega arith,
    (
      omega arith,
      (omega arith, (omega arith, (omega arith, (omega arith, (omega arith, (omega arith, tt)))))),
    ),
  ),
)

check_value : crc32 (concat pieces) ≡ 0xCBF43926
unfolding bitwise crc_bits crc_bit
check_value = refl

-- ===== src/Checksum/Table.antt =====
-- The table-driven checksum is the bitwise one.
use Prim.Native.Nat.{bit_xor}
use dmmr_orbit.Base.{
  true, false, ℕ, zero, suc, ◌+◌, ◌*◌, ◌/◌, ◌%◌, ◌<◌, ◌≡◌, refl, sym, ap, ◌∙◌, ◌==◌, Bool-cases,
  inl, inr, some, List, [], ◌∷◌, ◌++◌, get_or, concat, arith,
}
use dmmr_orbit.Base.Sort.{All}
use dmmr_orbit.Base.Xor.{xor_zero, xor_assoc, xor_comm, xor_self, bit_xor-div_two, bit_xor-mod_two}
use dmmr_orbit.Base.Bits.{bit_xor-halve}
use dmmr_orbit.Checksum.{
  poly, crc_bit, crc_bits, table_rounds, generate_crc32_table, crc_byte, crc_loop, crc32_buffer,
  crc_pieces, crc32_file,
}

-- The checksum with no table: each byte is added to the register, and the register is shifted
-- eight times.
unfoldable pub bitwise : ℕ → List ℕ → ℕ
bitwise crc [] = crc
bitwise crc (b ∷ bs) = bitwise (crc_bits 8 (bit_xor crc b)) bs

abbrev pub crc32 : List ℕ → ℕ
crc32 bytes = bit_xor (bitwise 0xFFFFFFFF bytes) 0xFFFFFFFF

xor_swap : (x y p : ℕ) → bit_xor (bit_xor x y) p ≡ bit_xor (bit_xor x p) y
xor_swap x y p = xor_assoc x y p ∙ (ap (bit_xor x) (xor_comm y p) ∙ sym (xor_assoc x p y))

xor_twice : (x y p : ℕ) → bit_xor (bit_xor x p) (bit_xor y p) ≡ bit_xor x y
xor_twice x y p =
    xor_assoc x p (bit_xor y p)
    ∙ ap (bit_xor x) (
        ap (bit_xor p) (xor_comm y p)
        ∙ (sym (xor_assoc p p y)
            ∙ (ap (λ q. bit_xor q y) (xor_self p) ∙ (xor_comm 0 y ∙ xor_zero y))))

-- A shift of the register is linear.
crc_bit-xor : (a b : ℕ) → crc_bit (bit_xor a b) ≡ bit_xor (crc_bit a) (crc_bit b)
unfolding crc_bit
crc_bit-xor a b =
    let low = bit_xor-mod_two a b in
    elim (Bool-cases (a % 2 == 1)) [
      | inl a_odd ↦ elim (Bool-cases (b % 2 == 1)) [
        | inl b_odd ↦
            let even : (bit_xor a b % 2 == 1) ≡ false = ground (arith, low) in
            rw (a_odd, b_odd, even, bit_xor-div_two a b) (sym (xor_twice (a / 2) (b / 2) poly))
        | inr b_even ↦
            let odd : (bit_xor a b % 2 == 1) ≡ true = ground (arith, low) in
            rw (a_odd, b_even, odd, bit_xor-div_two a b) (xor_swap (a / 2) (b / 2) poly)
      ]
      | inr a_even ↦ elim (Bool-cases (b % 2 == 1)) [
        | inl b_odd ↦
            let odd : (bit_xor a b % 2 == 1) ≡ true = ground (arith, low) in
            rw (a_even, b_odd, odd, bit_xor-div_two a b) (xor_assoc (a / 2) (b / 2) poly)
        | inr b_even ↦
            let even : (bit_xor a b % 2 == 1) ≡ false = ground (arith, low) in
            rw (a_even, b_even, even, bit_xor-div_two a b) refl
      ]
    ]

crc_bits-xor : (n a b : ℕ) → crc_bits n (bit_xor a b) ≡ bit_xor (crc_bits n a) (crc_bits n b)
unfolding crc_bits
crc_bits-xor zero a b = refl
crc_bits-xor (suc n) a b = rw (crc_bit-xor a b) (crc_bits-xor n (crc_bit a) (crc_bit b))

crc_bit-double : (h : ℕ) → crc_bit (h * 2) ≡ h
unfolding crc_bit
crc_bit-double h = let even : (h * 2 % 2 == 1) ≡ false = ground arith in rw even (omega arith)

-- `n` shifts of a number with `n` zero bits at its end.
abbrev doubled : ℕ → ℕ → ℕ
doubled zero h = h
doubled (suc n) h = doubled n h * 2

crc_bits-doubled : (n h : ℕ) → crc_bits n (doubled n h) ≡ h
unfolding crc_bits
crc_bits-doubled zero h = refl
crc_bits-doubled (suc n) h = rw (crc_bit-double (doubled n h)) (crc_bits-doubled n h)

split_bit : (n h l : ℕ) → bit_xor (doubled n h) l / 2 ≡ bit_xor (doubled n h / 2) (l / 2)
split_bit n h l = bit_xor-div_two (doubled n h) l

-- A number is its upper bits and its lowest byte.
xor_split_bits :
    (h l n : ℕ) → bit_xor (doubled (suc n) h) l ≡ bit_xor (doubled n h) (l / 2) * 2 + l % 2
xor_split_bits h l n =
    let half : doubled (suc n) h / 2 ≡ doubled n h = omega arith in
    let low : doubled (suc n) h % 2 ≡ 0 = omega arith in
    bit_xor-halve (doubled (suc n) h) l ∙ rw (half, low) (omega arith)

xor_split : (x : ℕ) → bit_xor (doubled 8 (x / 256)) (x % 256) ≡ x
xor_split x = omega (
  arith,
  xor_split_bits (x / 256) (x % 256) 7,
  xor_split_bits (x / 256) (x % 256 / 2) 6,
  xor_split_bits (x / 256) (x % 256 / 2 / 2) 5,
  xor_split_bits (x / 256) (x % 256 / 2 / 2 / 2) 4,
  xor_split_bits (x / 256) (x % 256 / 2 / 2 / 2 / 2) 3,
  xor_split_bits (x / 256) (x % 256 / 2 / 2 / 2 / 2 / 2) 2,
  xor_split_bits (x / 256) (x % 256 / 2 / 2 / 2 / 2 / 2 / 2) 1,
  xor_split_bits (x / 256) (x % 256 / 2 / 2 / 2 / 2 / 2 / 2 / 2) 0,
  ap (bit_xor (x / 256)) top,
  xor_zero (x / 256),
)
  where
    top : x % 256 / 2 / 2 / 2 / 2 / 2 / 2 / 2 / 2 ≡ 0
    top = omega arith

crc_bits-split : (x : ℕ) → crc_bits 8 x ≡ bit_xor (x / 256) (crc_bits 8 (x % 256))
crc_bits-split x =
    ap (crc_bits 8) (sym (xor_split x))
    ∙ (crc_bits-xor 8 (doubled 8 (x / 256)) (x % 256)
        ∙ ap (λ q. bit_xor q (crc_bits 8 (x % 256))) (crc_bits-doubled 8 (x / 256)))

table_rounds-at : (n i k : ℕ) → k < n → get_or (table_rounds n i) k 0 ≡ crc_bits 8 (i + k)
unfolding table_rounds
table_rounds-at zero i k h = absurd (omega arith)
table_rounds-at (suc n) i zero h = ap (crc_bits 8) (omega arith)
table_rounds-at (suc n) i (suc k) h =
    table_rounds-at n (i + 1) k (omega arith) ∙ ap (crc_bits 8) (omega arith)

upper_bits : (crc b : ℕ) → b < 256 → bit_xor crc b / 256 ≡ crc / 256
upper_bits crc b h = omega (
  arith,
  bit_xor-div_two crc b,
  bit_xor-div_two (crc / 2) (b / 2),
  bit_xor-div_two (crc / 2 / 2) (b / 2 / 2),
  bit_xor-div_two (crc / 2 / 2 / 2) (b / 2 / 2 / 2),
  bit_xor-div_two (crc / 2 / 2 / 2 / 2) (b / 2 / 2 / 2 / 2),
  bit_xor-div_two (crc / 2 / 2 / 2 / 2 / 2) (b / 2 / 2 / 2 / 2 / 2),
  bit_xor-div_two (crc / 2 / 2 / 2 / 2 / 2 / 2) (b / 2 / 2 / 2 / 2 / 2 / 2),
  bit_xor-div_two (crc / 2 / 2 / 2 / 2 / 2 / 2 / 2) (b / 2 / 2 / 2 / 2 / 2 / 2 / 2),
  ap (bit_xor (crc / 2 / 2 / 2 / 2 / 2 / 2 / 2 / 2)) top,
  xor_zero (crc / 2 / 2 / 2 / 2 / 2 / 2 / 2 / 2),
)
  where
    top : b / 2 / 2 / 2 / 2 / 2 / 2 / 2 / 2 ≡ 0
    top = omega arith

crc_byte_lem :
    (crc b : ℕ) → b < 256 → crc_byte (table_rounds 256 0) crc b ≡ crc_bits 8 (bit_xor crc b)
crc_byte_lem crc b h = rw (table_rounds-at 256 0 (bit_xor crc b % 256) (omega arith)) (
    let upper : bit_xor crc b / 256 ≡ crc / 256 = upper_bits crc b h in
    let at : 0 + bit_xor crc b % 256 ≡ bit_xor crc b % 256 = omega arith in
    rw (at, ← upper) (sym (crc_bits-split (bit_xor crc b))))

crc_loop_lem :
    (crc : ℕ) (bs : List ℕ)
    → All (λ b. b < 256) bs
    → crc_loop (table_rounds 256 0) crc bs ≡ bitwise crc bs
unfolding crc_loop bitwise
crc_loop_lem crc [] h = refl
crc_loop_lem crc (b ∷ bs) h =
    rw (crc_byte_lem crc b h.0) (crc_loop_lem (crc_bits 8 (bit_xor crc b)) bs h.1)

-- On bytes, the checksum by the generated table is the bitwise one.
pub crc32_buffer_lem :
    (bytes : List ℕ)
    → All (λ b. b < 256) bytes
    → crc32_buffer generate_crc32_table bytes ≡ crc32 bytes
unfolding crc32_buffer generate_crc32_table
crc32_buffer_lem bytes h = ap (λ q. bit_xor q 0xFFFFFFFF) (crc_loop_lem 0xFFFFFFFF bytes h)

crc_loop-append :
    (table : List ℕ) (crc : ℕ) (xs ys : List ℕ)
    → crc_loop table crc (xs ++ ys) ≡ crc_loop table (crc_loop table crc xs) ys
unfolding crc_loop
crc_loop-append table crc [] ys = refl
crc_loop-append table crc (x ∷ xs) ys = crc_loop-append table (crc_byte table crc x) xs ys

crc_pieces-concat :
    (table : List ℕ) (crc : ℕ) (ps : List (List ℕ))
    → crc_pieces table crc ps ≡ crc_loop table crc (concat ps)
unfolding crc_pieces
crc_pieces-concat table crc [] = refl
crc_pieces-concat table crc (p ∷ ps) =
    crc_pieces-concat table (crc_loop table crc p) ps
    ∙ sym (crc_loop-append table crc p (concat ps))

-- However the reads cut a file of bytes into pieces, its checksum is the bitwise one of its content.
pub crc32_file_lem :
    (pieces : List (List ℕ))
    → All (λ b. b < 256) (concat pieces)
    → crc32_file generate_crc32_table (some pieces) ≡ crc32 (concat pieces)
unfolding crc32_file generate_crc32_table
crc32_file_lem pieces h =
    ap (λ q. bit_xor q 0xFFFFFFFF)
      (crc_pieces-concat (table_rounds 256 0) 0xFFFFFFFF pieces
        ∙ crc_loop_lem 0xFFFFFFFF (concat pieces) h)

-- ===== src/Text.antt =====
-- Strings of bytes: `__vlen` of src/include/funcs.h, on a 64-bit build, and `strlcpy` of
-- src/utils/strlcpy.c.
-- Memory is a function from addresses to bytes, and a word is its eight bytes, the lowest first. A
-- string given as a list ends in its NUL.
pub mod Flag
pub mod Length
pub mod Copy
mod Tests
use Prim.Native.Nat.{bit_and}
use dmmr_orbit.Base.{
  ℕ, zero, suc, ◌+◌, ◌-◌, ◌*◌, ◌%◌, ◌^◌, ◌==◌, if◌then◌else◌, not, Bool, true, false, Option, none,
  some, List, [], ◌∷◌, ◌++◌, Run, ret, fault, hang, ◌>>=◌,
}
use dmmr_orbit.Bytes.{Memory}

abbrev pub mask01 : ℕ
mask01 = 0x0101010101010101

abbrev pub mask80 : ℕ
mask80 = 0x8080808080808080

-- `n` bytes as a number.
abbrev pub bytes_at : ℕ → Memory → ℕ → ℕ
bytes_at zero m a = 0
bytes_at (suc n) m a = m a + 256 * bytes_at n m (a + 1)

abbrev pub word_at : Memory → ℕ → ℕ
word_at m a = bytes_at 8 m a

-- `va & vb`, where `va = *lp - mask01` wraps and `vb = ~*lp & mask80`.
unfoldable pub flag : ℕ → ℕ
flag w = bit_and ((w + 2 ^ 64 - mask01) % 2 ^ 64) (bit_and (2 ^ 64 - 1 - w) mask80)

-- The first NUL of `n` bytes from `p` on.
unfoldable pub find_nul : Memory → ℕ → ℕ → Option ℕ
find_nul m zero p = none
find_nul m (suc n) p = let rest = find_nul m n (p + 1) in if m p == 0 then some p else rest

-- The bytes that are tested behind a flag, if it is set.
abbrev pub test_bytes : Memory → ℕ → ℕ → ℕ → Option ℕ
test_bytes m w n p = if flag w == 0 then none else find_nul m n p

-- The second loop, whose fuel counts its rounds. What it returns is `p - str`.
unfoldable pub word_loop : ℕ → Memory → ℕ → ℕ → Run ℕ
word_loop zero m str lp = hang
word_loop (suc fuel) m str lp =
    let rest = word_loop fuel m str (lp + 8) in
    elim (test_bytes m (word_at m lp) 8 lp) [ some p ↦ ret (p - str) | none ↦ rest ]

unfoldable pub vlen : ℕ → Memory → ℕ → Run ℕ
vlen fuel m str =
    let lp = str - str % 8 in
    elim (test_bytes m (word_at m lp) (lp + 8 - str) str) [
      | some p ↦ ret (p - str)
      | none ↦ word_loop fuel m str (lp + 8)
    ]

-- What `strlcpy` has done at the end of its copying loop: the bytes written, the number of bytes
-- read, and `nleft`; then what is left to read.
abbrev pub Copied : Type 0
Copied = List ℕ × ℕ × ℕ × List ℕ

-- `while (--nleft != 0) if ((*dst++ = *src++) == 0) break;`, for an `nleft` that is not zero. A list
-- that ends before its NUL is read past its end.
unfoldable pub copy_loop : ℕ → List ℕ → Run Copied
copy_loop zero src = fault
copy_loop (suc zero) src = ret ([], 0, 0, src)
copy_loop (suc (suc nleft)) [] = fault
copy_loop (suc (suc nleft)) (c ∷ src) =
    let rest = copy_loop (suc nleft) src in
    if c == 0
    then ret (c ∷ [], 1, suc nleft, src)
    else (rest >>= λ (written, count, left, src'). ret (c ∷ written, suc count, left, src'))

-- `while (*src++);`: how many bytes it reads.
unfoldable pub skip_loop : List ℕ → Run ℕ
skip_loop [] = fault
skip_loop (c ∷ src) =
    let rest = skip_loop src in if c == 0 then ret 1 else (rest >>= λ n. ret (suc n))

-- What is written from `dst` on, and the result.
unfoldable pub strlcpy : List ℕ → ℕ → Run (List ℕ × ℕ)
strlcpy src zero = skip_loop src >>= λ n. ret ([], n - 1)
strlcpy src (suc dsize) = copy_loop (suc dsize) src >>= λ (written, count, nleft, rest).
    if nleft == 0
    then (skip_loop rest >>= λ n. ret (written ++ (0 ∷ []), count + n - 1))
    else ret (written, count - 1)

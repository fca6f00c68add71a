-- ===== src/Bytes.antt =====
-- The byte routines of src/include/funcs.h: `__vcpy`, `__bcpy`, `__mset` and `__vcmp`.
-- Memory is a function from addresses to bytes, so overlap and alignment are visible. A word is
-- eight bytes (the 64-bit build), read before it is written. Addresses are not null and an object
-- does not run past the end of the address space, so that pointer arithmetic does not wrap.
pub mod Copy
pub mod Move
pub mod Fill
pub mod Compare
mod Tests
use dmmr_orbit.Base.{ℕ, zero, suc, ◌+◌, ◌-◌, ◌≤◌, ltb, leb, ◌==◌, if◌then◌else◌, ◌&&◌}

abbrev pub Memory : Type 0
Memory = ℕ → ℕ

-- `*a = v` for a byte.
abbrev pub poke : Memory → ℕ → ℕ → Memory
poke m a v = λ x. if x == a then v else m x

-- `*(long *)d = *(const long *)s`.
abbrev pub store_word : Memory → ℕ → ℕ → Memory
store_word m d s = λ x. if leb d x && ltb x (d + 8) then m (s + (x - d)) else m x

-- What a copy of `n` bytes from `s` to `d` is to do: every byte is the one that `s` held before.
abbrev pub moved : ℕ → Memory → ℕ → ℕ → Memory
moved n m d s = λ x. if leb d x && ltb x (d + n) then m (s + (x - d)) else m x

-- `do *d++ = *s++; while (--n)` for a count that is not zero.
unfoldable pub copy_up : ℕ → Memory → ℕ → ℕ → Memory
copy_up zero m d s = m
copy_up (suc n) m d s = copy_up n (poke m d (m s)) (d + 1) (s + 1)

-- The same loop over words.
unfoldable pub words_up : ℕ → Memory → ℕ → ℕ → Memory
words_up zero m d s = m
words_up (suc n) m d s = words_up n (store_word m d s) (d + 8) (s + 8)

-- `do *--d = *--s; while (--n)` for a count that is not zero.
unfoldable pub copy_down : ℕ → Memory → ℕ → ℕ → Memory
copy_down zero m d s = m
copy_down (suc n) m d s = copy_down n (poke m (d - 1) (m (s - 1))) (d - 1) (s - 1)

-- The same loop over words.
unfoldable pub words_down : ℕ → Memory → ℕ → ℕ → Memory
words_down zero m d s = m
words_down (suc n) m d s = words_down n (store_word m (d - 8) (s - 8)) (d - 8) (s - 8)

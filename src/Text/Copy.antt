-- ===== src/Text/Copy.antt =====
-- src/utils/strlcpy.c: what is written and returned.
use dmmr_orbit.Base.{
  ℕ, zero, suc, ◌+◌, ◌-◌, ◌<◌, ◌≤◌, ltb, ◌≡◌, ◌≢◌, refl, ap, ◌==◌, Bool-cases, inl, inr, false,
  List, [], ◌∷◌, ◌++◌, ret, length, take, arith,
}
use dmmr_orbit.Base.Sort.{All}
use dmmr_orbit.Text.{copy_loop, skip_loop, strlcpy}

-- The bytes of a string: none is NUL.
abbrev pub IsText : List ℕ → Type 0
IsText s = All (λ c. c ≢ 0) s

skip_loop_lem : (s : List ℕ) → IsText s → skip_loop (s ++ (0 ∷ [])) ≡ ret (suc (length s))
unfolding skip_loop
skip_loop_lem [] h = refl
skip_loop_lem (c ∷ s) h =
    let more : (c == 0) ≡ false = ground (arith, h.0) in rw (more, skip_loop_lem s h.1) refl

-- The copy stops short when the room is used up, and otherwise with the NUL.
copy_loop_short :
    (n : ℕ) (s : List ℕ)
    → IsText s
    → n ≤ length s
    → (rest : List ℕ) × (copy_loop (suc n) (s ++ (0 ∷ [])) ≡ ret (take n s, n, 0, rest ++ (0 ∷ [])))
      × IsText rest
      × (n + length rest ≡ length s)
unfolding copy_loop
copy_loop_short zero [] t h = ([], refl, tt, refl)
copy_loop_short zero (c ∷ s) t h = (c ∷ s, refl, t, omega arith)
copy_loop_short (suc n) [] t h = absurd (omega arith)
copy_loop_short (suc n) (c ∷ s) t h =
    let more : (c == 0) ≡ false = ground (arith, t.0) in
    let (rest, e, text, size) = copy_loop_short n s t.1 (omega arith) in
    (rest, rw (more, e) refl, text, omega arith)

copy_loop_whole :
    (n : ℕ) (s : List ℕ)
    → IsText s
    → length s < n
    → (nleft : ℕ) × (rest : List ℕ) × (copy_loop (suc n) (s ++ (0 ∷ []))
        ≡ ret (s ++ (0 ∷ []), suc (length s), suc nleft, rest))
unfolding copy_loop
copy_loop_whole zero s t h = absurd (omega arith)
copy_loop_whole (suc n) [] t h = (n, [], refl)
copy_loop_whole (suc n) (c ∷ s) t h =
    let more : (c == 0) ≡ false = ground (arith, t.0) in
    let (nleft, rest, e) = copy_loop_whole n s t.1 (omega arith) in (nleft, rest, rw (more, e) refl)

take_all : (n : ℕ) (s : List ℕ) → length s ≤ n → take n s ≡ s
take_all zero [] h = refl
take_all (suc n) [] h = refl
take_all zero (c ∷ s) h = absurd (omega arith)
take_all (suc n) (c ∷ s) h = ap (λ q. c ∷ q) (take_all n s (omega arith))

-- For every string and every size of the target, `strlcpy` returns the length of the string; with a
-- size of zero it writes nothing, and otherwise as many bytes of the string as fit before a NUL, and
-- the NUL.
pub strlcpy_lem :
    (s : List ℕ) (dsize : ℕ)
    → IsText s
    → (strlcpy (s ++ (0 ∷ [])) 0 ≡ ret ([], length s))
      × (strlcpy (s ++ (0 ∷ [])) (suc dsize) ≡ ret (take dsize s ++ (0 ∷ []), length s))
unfolding strlcpy
strlcpy_lem s dsize t = (
  rw (skip_loop_lem s t) (ap (λ n. ret ([], n)) (omega arith)),
  elim (Bool-cases (ltb (length s) dsize)) [
    | inl fits ↦
        let below : length s < dsize = ground arith in
        let (nleft, rest, e) = copy_loop_whole dsize s t below in
        let left : (suc nleft == 0) ≡ false = ground arith in
        let count : suc (length s) - 1 ≡ length s = omega arith in
        rw (strlcpy, e, left, take_all dsize s (omega arith), count) refl
    | inr long ↦
        let above : dsize ≤ length s = ground arith in
        let (rest, e, text, size) = copy_loop_short dsize s t above in
        let count : dsize + suc (length rest) - 1 ≡ length s = omega arith in
        rw (strlcpy, e, skip_loop_lem rest text, count) refl
  ],
)

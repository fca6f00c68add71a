-- ===== src/Bytes/Move.antt =====
-- `__bcpy`, a copy of possibly overlapping objects.
use Prim.Native.Nat.{bit_and, bit_or, bit_xor}
use dmmr_orbit.Base.{
  ℕ, ◌+◌, ◌-◌, ◌*◌, ◌/◌, ◌^◌, ◌≤◌, ◌<◌, ◌≡◌, ◌≢◌, refl, ◌∙◌, arith, ltb, ◌==◌, Bool-cases, true,
  if◌then◌else◌, not, ◌||◌, inl, inr,
}
use dmmr_orbit.Base.Bits.{bit_and_seven, or_aligned_iff, xor_aligned_iff}
use dmmr_orbit.Bytes.{Memory, moved, copy_up, words_up, copy_down, words_down}
use dmmr_orbit.Bytes.Copy.{
  moved_append, moved_prepend, moved_ext, copy_up_lem, words_up_lem, copy_down_lem, words_down_lem,
}

-- `do … while (--t)` on a `size_t`: a count of zero wraps round.
abbrev pub do_rounds : ℕ → ℕ
do_rounds t = if t == 0 then 2 ^ 64 else t

-- The bytes up to the first word boundary of the source; all of them when the two alignments
-- differ or the object is shorter than a word.
abbrev pub head_up : ℕ → ℕ → ℕ → ℕ
head_up src dst length =
    if not (bit_and (bit_xor src dst) 7 == 0) || ltb length 8 then length else 8 - bit_and src 7

-- The words, then the bytes that are left: `t = length / wsize`, `t = length & wmask`.
unfoldable pub tail_up : Memory → ℕ → ℕ → ℕ → Memory
unfolding copy_up words_up
tail_up m src dst length =
    let w = length / 8 in
    copy_up (bit_and length 7) (words_up w m dst src) (dst + 8 * w) (src + 8 * w)

-- The branch of `__bcpy` that copies forward.
unfoldable pub forward : Memory → ℕ → ℕ → ℕ → Memory
unfolding copy_up tail_up
forward m src dst length =
    if not (bit_and (bit_or src dst) 7 == 0)
    then (let t = head_up src dst length in
        tail_up (copy_up (do_rounds t) m dst src) (src + t) (dst + t) (length - t))
    else tail_up m src dst length

-- The bytes above the last word boundary of the source end; here the test is `length <= wsize`.
abbrev pub head_down : ℕ → ℕ → ℕ → ℕ
head_down src dst length =
    if not (bit_and (bit_xor src dst) 7 == 0) || ltb length 9 then length else bit_and src 7

unfoldable pub tail_down : Memory → ℕ → ℕ → ℕ → Memory
unfolding copy_down words_down
tail_down m src dst length =
    let w = length / 8 in
    copy_down (bit_and length 7) (words_down w m dst src) (dst - 8 * w) (src - 8 * w)

-- The branch that copies backwards; `src` and `dst` are the ends of the objects.
unfoldable pub backward : Memory → ℕ → ℕ → ℕ → Memory
unfolding copy_down tail_down
backward m src dst length =
    if not (bit_and (bit_or src dst) 7 == 0)
    then (let t = head_down src dst length in
        tail_down (copy_down (do_rounds t) m dst src) (src - t) (dst - t) (length - t))
    else tail_down m src dst length

unfoldable pub bcpy : Memory → ℕ → ℕ → ℕ → Memory
unfolding forward backward
bcpy m src dst length =
    if length == 0 || dst == src
    then m
    else (if ltb dst src
        then forward m src dst length
        else backward m (src + length) (dst + length) length)

tail_up_lem :
    (m : Memory) (src dst length : ℕ)
    → dst ≤ src
    → (x : ℕ) → tail_up m src dst length x ≡ moved length m dst src x
unfolding tail_up
tail_up_lem m src dst length g x =
    copy_up_lem (bit_and length 7) (words_up w m dst src) (dst + 8 * w) (src + 8 * w)
      (inl (omega arith)) x
    ∙ (moved_ext (bit_and length 7) (words_up w m dst src) (moved (8 * w) m dst src) _ _
          (words_up_lem w m dst src (inl g)) x
        ∙ moved_append (8 * w) (bit_and length 7) length m dst src _ _
            (omega (arith, bit_and_seven length)) (inl g) refl refl x)
  where
    w : ℕ
    w = length / 8

tail_down_lem :
    (m : Memory) (src dst e t length : ℕ)
    → src ≤ dst
    → t ≡ src + length
    → e ≡ dst + length
    → (x : ℕ) → tail_down m t e length x ≡ moved length m dst src x
unfolding tail_down
tail_down_lem m src dst e t length g ht he x =
    copy_down_lem r (words_down w m e t) dst src (e - 8 * w) (t - 8 * w) g (omega (arith, size))
      (omega (arith, size)) x
    ∙ (moved_ext r (words_down w m e t) (moved (8 * w) m (dst + r) (src + r)) _ _
          (words_down_lem w m (dst + r) (src + r) e t (omega arith) (omega (arith, size))
            (omega (arith, size)))
          x
        ∙ moved_prepend (8 * w) r length m dst src _ _ (omega (arith, size)) g refl refl x)
  where
    w : ℕ
    w = length / 8

    r : ℕ
    r = bit_and length 7

    size : r + 8 * w ≡ length
    size = omega (arith, bit_and_seven length)

-- The first loop of the forward branch runs at least once and not past the end.
head_up_bounds :
    (src dst length : ℕ)
    → 0 < length
    → bit_and (bit_or src dst) 7 ≢ 0
    → (0 < head_up src dst length) × (head_up src dst length ≤ length)
head_up_bounds src dst length pos odd =
    ground (arith, or_aligned_iff src dst, xor_aligned_iff src dst, bit_and_seven src)

head_down_bounds :
    (src dst length : ℕ)
    → 0 < length
    → bit_and (bit_or src dst) 7 ≢ 0
    → (0 < head_down src dst length) × (head_down src dst length ≤ length)
head_down_bounds src dst length pos odd =
    ground (arith, or_aligned_iff src dst, xor_aligned_iff src dst, bit_and_seven src)

do_rounds_pos : (t : ℕ) → 0 < t → do_rounds t ≡ t
do_rounds_pos t pos = ground arith

head_tail_up :
    (m : Memory) (src dst length t : ℕ)
    → 0 < t
    → t ≤ length
    → dst ≤ src
    → (x : ℕ)
    → tail_up (copy_up (do_rounds t) m dst src) (src + t) (dst + t) (length - t) x
      ≡ moved length m dst src x
head_tail_up m src dst length t pos le g x = rw (do_rounds_pos t pos) (
    tail_up_lem m1 (src + t) (dst + t) (length - t) (omega arith) x
    ∙ (moved_ext (length - t) m1 (moved t m dst src) _ _ (copy_up_lem t m dst src (inl g)) x
        ∙ moved_append t (length - t) length m dst src _ _ (omega arith) (inl g) refl refl x))
  where
    m1 : Memory
    m1 = copy_up t m dst src

forward_lem :
    (m : Memory) (src dst length : ℕ)
    → 0 < length
    → dst ≤ src
    → (x : ℕ) → forward m src dst length x ≡ moved length m dst src x
unfolding forward
forward_lem m src dst length pos g x = elim (Bool-cases (bit_and (bit_or src dst) 7 == 0)) [
  | inl even ↦ rw even (tail_up_lem m src dst length g x)
  | inr odd ↦
      let (some_byte, fits) = head_up_bounds src dst length pos (ground arith) in
      rw odd (head_tail_up m src dst length (head_up src dst length) some_byte fits g x)
]

head_tail_down :
    (m : Memory) (src dst length t : ℕ)
    → 0 < t
    → t ≤ length
    → src ≤ dst
    → (x : ℕ)
    → tail_down
        (copy_down (do_rounds t) m (dst + length) (src + length))
        (src + length - t)
        (dst + length - t)
        (length - t)
        x
      ≡ moved length m dst src x
head_tail_down m src dst length t pos le g x = rw (do_rounds_pos t pos) (
    tail_down_lem m1 src dst (dst + length - t) (src + length - t) (length - t) g (omega arith)
      (omega arith) x
    ∙ (moved_ext (length - t) m1 (moved t m (dst + (length - t)) (src + (length - t))) _ _
          (copy_down_lem t m (dst + (length - t)) (src + (length - t)) (dst + length) (src + length)
            (omega arith) (omega arith) (omega arith))
          x
        ∙ moved_prepend t (length - t) length m dst src _ _ (omega arith) g refl refl x))
  where
    m1 : Memory
    m1 = copy_down t m (dst + length) (src + length)

backward_lem :
    (m : Memory) (src dst length : ℕ)
    → 0 < length
    → src ≤ dst
    → (x : ℕ) → backward m (src + length) (dst + length) length x ≡ moved length m dst src x
unfolding backward
backward_lem m src dst length pos g x =
    elim (Bool-cases (bit_and (bit_or (src + length) (dst + length)) 7 == 0)) [
      | inl even ↦ rw even (tail_down_lem m src dst _ _ length g refl refl x)
      | inr odd ↦
          let t = head_down (src + length) (dst + length) length in
          let (some_byte, fits) =
            head_down_bounds (src + length) (dst + length) length pos (ground arith) in
          rw odd (head_tail_down m src dst length t some_byte fits g x)
    ]

nothing_to_do :
    (m : Memory) (src dst length : ℕ)
    → ((length == 0 || dst == src) ≡ true)
    → (x : ℕ) → m x ≡ moved length m dst src x
nothing_to_do m src dst length h x = grind arith

-- `__bcpy` is memmove: whatever the overlap, the alignments and the length, every target byte is
-- the byte that the source held before the call, and no other byte changes.
pub bcpy-moved :
    (m : Memory) (src dst length : ℕ) → (x : ℕ) → bcpy m src dst length x ≡ moved length m dst src x
unfolding bcpy
bcpy-moved m src dst length x = elim (Bool-cases (length == 0 || dst == src)) [
  | inl idle ↦ rw idle (nothing_to_do m src dst length idle x)
  | inr work ↦ rw work (elim (Bool-cases (ltb dst src)) [
    | inl low ↦ rw low (forward_lem m src dst length (ground arith) (ground arith) x)
    | inr high ↦ rw high (backward_lem m src dst length (ground arith) (ground arith) x)
  ])
]

-- ===== src/Bytes/Copy.antt =====
-- What the copying loops do, and `__vcpy`.
use mathlib.Core.Path.{fun_ext, ◌∙◌}
use dmmr_orbit.Base.{
  ℕ, zero, suc, ◌+◌, ◌-◌, ◌*◌, ◌/◌, ◌%◌, ◌≤◌, ◌<◌, ◌≡◌, refl, ◌⊎◌, arith, ◌==◌, if◌then◌else◌, ◌&&◌,
  not,
}
use dmmr_orbit.Bytes.{Memory, poke, store_word, moved, copy_up, words_up, copy_down, words_down}

-- Copying upwards is safe when the target starts below the source or behind its end.
abbrev pub GoesUp : ℕ → ℕ → ℕ → Type 0
GoesUp n d s = (d ≤ s) ⊎ (s + n ≤ d)

-- Two moves of neighbouring pieces, the lower first, are one move.
pub moved_append :
    (j k n : ℕ) (m : Memory) (d s d' s' : ℕ)
    → j + k ≡ n
    → GoesUp n d s
    → d' ≡ d + j
    → s' ≡ s + j
    → (x : ℕ) → moved k (moved j m d s) d' s' x ≡ moved n m d s x
moved_append j k n m d s d' s' e g ed es x = grind arith

-- A move depends on the memory before it only through its bytes.
pub moved_ext :
    (n : ℕ) (m m' : Memory) (d s : ℕ)
    → ((x : ℕ) → m x ≡ m' x)
    → (x : ℕ) → moved n m d s x ≡ moved n m' d s x
moved_ext n m m' d s h x = rw (fun_ext h)

pub copy_up_lem :
    (n : ℕ) (m : Memory) (d s : ℕ) → GoesUp n d s → (x : ℕ) → copy_up n m d s x ≡ moved n m d s x
unfolding copy_up
copy_up_lem zero m d s g x = ground arith
copy_up_lem (suc n) m d s g x =
    copy_up_lem n (poke m d (m s)) (d + 1) (s + 1) (omega arith) x
    ∙ (moved_ext n (poke m d (m s)) (moved 1 m d s) (d + 1) (s + 1) (λ y. grind arith) x
        ∙ moved_append 1 n (suc n) m d s (d + 1) (s + 1) (omega arith) g refl refl x)

pub words_up_lem :
    (w : ℕ) (m : Memory) (d s : ℕ)
    → GoesUp (8 * w) d s
    → (x : ℕ) → words_up w m d s x ≡ moved (8 * w) m d s x
unfolding words_up
words_up_lem zero m d s g x = ground arith
words_up_lem (suc w) m d s g x =
    words_up_lem w (store_word m d s) (d + 8) (s + 8) (omega arith) x
    ∙ (moved_ext (8 * w) (store_word m d s) (moved 8 m d s) (d + 8) (s + 8) (λ y. refl) x
        ∙ moved_append 8 (8 * w) (8 * suc w) m d s (d + 8) (s + 8) (omega arith) g refl refl x)

-- A move of the upper piece, then of the lower, is one move when the target is not below the source.
pub moved_prepend :
    (j k n : ℕ) (m : Memory) (d s d' s' : ℕ)
    → k + j ≡ n
    → s ≤ d
    → d' ≡ d + k
    → s' ≡ s + k
    → (x : ℕ) → moved k (moved j m d' s') d s x ≡ moved n m d s x
moved_prepend j k n m d s d' s' e g ed es x = grind arith

pub copy_down_lem :
    (n : ℕ) (m : Memory) (d s e t : ℕ)
    → s ≤ d
    → e ≡ d + n
    → t ≡ s + n
    → (x : ℕ) → copy_down n m e t x ≡ moved n m d s x
unfolding copy_down
copy_down_lem zero m d s e t g he ht x = ground arith
copy_down_lem (suc n) m d s e t g he ht x =
    copy_down_lem n (poke m (e - 1) (m (t - 1))) d s (e - 1) (t - 1) g (omega arith) (omega arith) x
    ∙ (moved_ext n (poke m (e - 1) (m (t - 1))) (moved 1 m (d + n) (s + n)) d s piece x
        ∙ moved_prepend 1 n (suc n) m d s (d + n) (s + n) (omega arith) g refl refl x)
  where
    piece : (y : ℕ) → poke m (e - 1) (m (t - 1)) y ≡ moved 1 m (d + n) (s + n) y
    piece y = grind arith

pub words_down_lem :
    (w : ℕ) (m : Memory) (d s e t : ℕ)
    → s ≤ d
    → e ≡ d + 8 * w
    → t ≡ s + 8 * w
    → (x : ℕ) → words_down w m e t x ≡ moved (8 * w) m d s x
unfolding words_down
words_down_lem zero m d s e t g he ht x = ground arith
words_down_lem (suc w) m d s e t g he ht x =
    words_down_lem w (store_word m (e - 8) (t - 8)) d s (e - 8) (t - 8) g (omega arith)
      (omega arith) x
    ∙ (moved_ext (8 * w) (store_word m (e - 8) (t - 8)) (moved 8 m (d + 8 * w) (s + 8 * w)) d s
          piece x
        ∙ moved_prepend 8 (8 * w) (8 * suc w) m d s (d + 8 * w) (s + 8 * w) (omega arith) g refl
            refl x)
  where
    piece : (y : ℕ) → store_word m (e - 8) (t - 8) y ≡ moved 8 m (d + 8 * w) (s + 8 * w) y
    piece y = grind arith

-- `__vcpy`.
unfoldable pub vcpy : Memory → ℕ → ℕ → ℕ → Memory
unfolding copy_up words_up
vcpy m d o n =
    if not (d == 0) && not (o == 0) && not (n == 0)
    then (if d % 8 == 0 && o % 8 == 0
        then copy_up (n % 8) (words_up (n / 8) m d o) (d + 8 * (n / 8)) (o + 8 * (n / 8))
        else copy_up n m d o)
    else m

aligned_up :
    (n : ℕ) (m : Memory) (d o : ℕ)
    → GoesUp n d o
    → (x : ℕ)
    → copy_up (n % 8) (words_up (n / 8) m d o) (d + 8 * (n / 8)) (o + 8 * (n / 8)) x
      ≡ moved n m d o x
aligned_up n m d o g x =
    copy_up_lem (n % 8) (words_up (n / 8) m d o) (d + 8 * (n / 8)) (o + 8 * (n / 8)) (omega arith) x
    ∙ (moved_ext (n % 8) (words_up (n / 8) m d o) (moved (8 * (n / 8)) m d o) _ _
          (words_up_lem (n / 8) m d o (omega arith)) x
        ∙ moved_append (8 * (n / 8)) (n % 8) n m d o _ _ (omega arith) g refl refl x)

-- `__vcpy` moves `n` bytes, and changes no other byte, at every alignment, when neither pointer is
-- null and the target starts at or below the source or behind its end.
pub vcpy-moved :
    (m : Memory) (d o n : ℕ)
    → 0 < d
    → 0 < o
    → GoesUp n d o
    → (x : ℕ) → vcpy m d o n x ≡ moved n m d o x
unfolding vcpy
vcpy-moved m d o n hd ho g x = ground (arith, aligned_up n m d o g x, copy_up_lem n m d o g x)

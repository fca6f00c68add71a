-- ===== src/Parser/Quotes.antt =====
-- src/include/unquote_string.h: `unquote_string` on a quoted string.
use dmmr_orbit.Base.{
  take-append, ℕ, suc, ◌-◌, ◌≤◌, ◌<◌, leb, ◌==◌, if◌then◌else◌, true, false, List, [], ◌∷◌, ◌++◌,
  ◌≡◌, refl, arith, some, get_elem?, take, length, length-append,
}
use dmmr_orbit.Parser.{unquote_string, quote, over}

abbrev pub quoted : List ℕ → List ℕ
quoted s = quote ∷ (s ++ (quote ∷ []))

get_last : (s : List ℕ) (c : ℕ) → get_elem? (s ++ (c ∷ [])) (length s) ≡ some c
get_last [] c = refl
get_last (x ∷ s) c = get_last s c

-- The text between the quotes, cut to one byte less than the buffer, and a NUL behind it go to the
-- start of the buffer, whatever the text is; the bytes behind them stay as they were.
pub unquote_string-quoted :
    (dest : List ℕ) (dest_size : ℕ) (s : List ℕ)
    → 0 < dest_size
    → unquote_string dest dest_size (quoted s)
      ≡ over
          (take (if leb dest_size (length s) then dest_size - 1 else length s) s ++ (0 ∷ []))
          dest
unfolding unquote_string
unquote_string-quoted dest dest_size s h =
    let nonzero : (dest_size == 0) ≡ false = ground arith in
    let len : length (quoted s) ≡ suc (suc (length s)) =
      omega (arith, length-append s (quote ∷ [])) in
    let long : leb 2 (suc (suc (length s))) ≡ true = ground arith in
    let last : suc (suc (length s)) - 1 ≡ suc (length s) = omega arith in
    let inner : suc (suc (length s)) - 2 ≡ length s = omega arith in
    let fits : (if leb dest_size (length s) then dest_size - 1 else length s) ≤ length s =
      ground arith in
    rw
      (
        unquote_string,
        nonzero,
        len,
        long,
        last,
        get_last s quote,
        inner,
        take-append _ s (quote ∷ []) fits,
      )
      refl

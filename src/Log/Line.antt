-- ===== src/Log/Line.antt =====
-- The text of a line of the log, as `rb_log_push` of src/log/rb_log.c puts it together.
use mathlib.Core.List.{append-nil, append_assoc}
use dmmr_orbit.Base.{
  ℕ, zero, suc, ◌+◌, ◌/◌, ◌%◌, ◌≤◌, ltb, ◌==◌, Bool-cases, inl, inr, true, false, [], ◌∷◌, ◌++◌,
  length, length-append, length-take, take, ◌≡◌, refl, sym, ap, ◌∙◌, arith,
}
use dmmr_orbit.Base.Int.{ℤ, pos, negsuc}
use dmmr_orbit.Parser.Numbers.{digits}
use dmmr_orbit.Log.{Line, put_char, put_text, line_digits, line_text, format_line}

take_short : (n : ℕ) (w : Line) → length w ≤ n → take n w ≡ w
take_short zero [] h = refl
take_short zero (c ∷ w) h = absurd (omega arith)
take_short (suc n) [] h = refl
take_short (suc n) (c ∷ w) h = ap (λ q. c ∷ q) (take_short n w (omega arith))

take_long : (n : ℕ) (w t : Line) → n ≤ length w → take n (w ++ t) ≡ take n w
take_long zero w t h = refl
take_long (suc n) [] t h = absurd (omega arith)
take_long (suc n) (c ∷ w) t h = ap (λ q. c ∷ q) (take_long n w t (omega arith))

put_text-short : (t w : Line) → length w ≤ 511 → put_text t w ≡ take 511 (w ++ t)
unfolding put_text
put_text-short [] w h = sym (ap (take 511) (append-nil w) ∙ take_short 511 w h)
put_text-short (c ∷ t) w h = elim (Bool-cases (ltb (length w) 511)) [
  | inl room ↦
      let size : length (w ++ (c ∷ [])) ≤ 511 = ground (arith, length-append w (c ∷ [])) in
      rw (room, put_text-short t (w ++ (c ∷ [])) size, append_assoc w (c ∷ []) t) refl
  | inr full ↦
      let above : 511 ≤ length w = ground arith in
      rw (full, take_long 511 w (c ∷ t) above, take_short 511 w h) refl
]

put_text-full : (t w : Line) → length w ≡ 511 → put_text t w ≡ w
unfolding put_text
put_text-full [] w h = refl
put_text-full (c ∷ t) w h = let full : ltb (length w) 511 ≡ false = ground arith in rw full refl

-- What is put behind a text that was cut is cut as it is behind the whole text.
put_text-take : (t w : Line) → put_text t (take 511 w) ≡ take 511 (w ++ t)
put_text-take t w = elim (Bool-cases (ltb (length w) 511)) [
  | inl room ↦
      let below : length w ≤ 511 = ground arith in
      rw (take_short 511 w below) (put_text-short t w below)
  | inr full ↦
      let above : 511 ≤ length w = ground arith in
      let size : length (take 511 w) ≡ 511 = omega (arith, length-take 511 w) in
      put_text-full t (take 511 w) size ∙ sym (take_long 511 w t above)
]

put_char-take : (c : ℕ) (w : Line) → put_char c (take 511 w) ≡ take 511 (w ++ (c ∷ []))
unfolding put_text
put_char-take c w = put_text-take (c ∷ []) w

line_digits_lem :
    (fuel n : ℕ) (num : Line) → n ≤ fuel → line_digits fuel n num ≡ digits fuel n ++ num
unfolding line_digits digits
line_digits_lem zero n num h = let small : n % 10 ≡ n = omega arith in rw small refl
line_digits_lem (suc fuel) n num h = elim (Bool-cases (ltb n 10)) [
  | inl short ↦
      let done : (n / 10 == 0) ≡ true = ground arith in
      let small : n % 10 ≡ n = ground arith in rw (line_digits, digits, done, short, small) refl
  | inr long ↦
      let more : (n / 10 == 0) ≡ false = ground arith in
      rw
        (
          line_digits,
          digits,
          more,
          long,
          line_digits_lem fuel (n / 10) ((48 + n % 10) ∷ num) (omega arith),
          append_assoc (digits fuel (n / 10)) ((48 + n % 10) ∷ []) num,
        )
        refl
]

-- The decimal numeral of a line number.
abbrev pub numeral : ℤ → Line
numeral (pos n) = digits n n
numeral (negsuc n) = 45 ∷ digits (suc n) (suc n)

line_text_lem : (line : ℤ) → line_text line ≡ numeral line
line_text_lem (pos n) =
    let same : 0 + n ≡ n = omega arith in
    rw (same, line_digits_lem n n [] (omega arith)) (append-nil (digits n n))
line_text_lem (negsuc n) =
    let same : suc n + 0 ≡ suc n = omega arith in
    let signed : (suc n == 0) ≡ false = ground arith in
    rw (same, signed, line_digits_lem (suc n) (suc n) [] (omega arith))
      (ap (λ q. 45 ∷ q) (append-nil (digits (suc n) (suc n))))

-- For every function name, line number and message, the line that `rb_log_push` puts together is
-- the text `func (line) msg`, with the line number in decimal, cut to the 511 bytes that fit.
pub format_line_lem :
    (msg func : Line) (line : ℤ)
    → format_line msg func line ≡ take 511 (func ++ (32 ∷ 40 ∷ numeral line) ++ (41 ∷ 32 ∷ msg))
format_line_lem msg func line =
    rw
      (
        line_text_lem line,
        put_text-short func [] (omega arith),
        put_char-take 32 func,
        put_char-take 40 (func ++ (32 ∷ [])),
        put_text-take (numeral line) ((func ++ (32 ∷ [])) ++ (40 ∷ [])),
        put_char-take 41 (((func ++ (32 ∷ [])) ++ (40 ∷ [])) ++ numeral line),
        put_char-take 32 ((((func ++ (32 ∷ [])) ++ (40 ∷ [])) ++ numeral line) ++ (41 ∷ [])),
        put_text-take msg
            (((((func ++ (32 ∷ [])) ++ (40 ∷ [])) ++ numeral line) ++ (41 ∷ [])) ++ (32 ∷ [])),
      )
      (ap (take 511) (simp (append_assoc) refl))

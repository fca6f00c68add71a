-- ===== src/Parser/Scanner/Munch.antt =====
-- src/parser/scanner.l: the fuel of the scanner, and the match of each kind of token in front of any
-- text.
use dmmr_orbit.Base.{
  ℕ, zero, suc, ◌≤◌, ◌<◌, ◌==◌, ◌&&◌, not, Bool, Bool-cases, Option-cases, true, false, some, List,
  [], ◌∷◌, ◌++◌, length, length-append, length-drop, drop, take-length-append, drop-length-append,
  ◌≡◌, refl, ap, ◌∙◌, inl, inr, arith,
}
use dmmr_orbit.Base.Sort.{All}
use dmmr_orbit.Parser.{number, string, quote}
use dmmr_orbit.Parser.Quotes.{quoted}
use dmmr_orbit.Parser.Scanner.{
  is_digit, is_letter, is_blank, is_ident, newline, backslash, munch, string_rest, settings,
  word_in, c_string, lexeme, send, scan, tokens,
}

-- A match has at least one byte.
lexeme-pos : (c : ℕ) (cs : List ℕ) → 0 < (lexeme c cs).0
unfolding lexeme
lexeme-pos c cs = elim (Bool-cases (is_digit c)) [
  | inl digit ↦ rw (lexeme, digit) (omega arith)
  | inr other1 ↦ elim (Bool-cases (is_letter c)) [
    | inl letter ↦ rw (lexeme, other1, letter) (omega arith)
    | inr other2 ↦ elim (Bool-cases (c == quote)) [
      | inl quoted ↦ elim (Option-cases (string_rest cs)) [
        | inl bare ↦ rw (lexeme, other1, other2, quoted, bare) (omega arith)
        | inr (n, text) ↦ rw (lexeme, other1, other2, quoted, text) (omega arith)
      ]
      | inr other3 ↦ elim (Bool-cases (is_blank c)) [
        | inl blank ↦ rw (lexeme, other1, other2, other3, blank) (omega arith)
        | inr other4 ↦ elim (Bool-cases (c == newline)) [
          | inl line ↦ rw (lexeme, other1, other2, other3, other4, line) (omega arith)
          | inr other5 ↦ rw (lexeme, other1, other2, other3, other4, other5) (omega arith)
        ]
      ]
    ]
  ]
]

length-rest : (c : ℕ) (cs : List ℕ) → length (drop (lexeme c cs).0 (c ∷ cs)) ≤ length cs
length-rest c cs = omega (arith, lexeme-pos c cs, length-drop (lexeme c cs).0 (c ∷ cs))

scan-enough :
    (f g : ℕ) (input : List ℕ) → length input ≤ f → length input ≤ g → scan f input ≡ scan g input
unfolding scan
scan-enough zero zero input h k = refl
scan-enough zero (suc g) [] h k = refl
scan-enough zero (suc g) (c ∷ cs) h k = elim h [ ]
scan-enough (suc f) zero [] h k = refl
scan-enough (suc f) zero (c ∷ cs) h k = elim k [ ]
scan-enough (suc f) (suc g) [] h k = refl
scan-enough (suc f) (suc g) (c ∷ cs) h k = ap (send (lexeme c cs).1) (
    scan-enough f g (drop (lexeme c cs).0 (c ∷ cs)) (omega (arith, length-rest c cs))
      (omega (arith, length-rest c cs)))

-- Every match takes a byte or more, so the loop of the scanner ends: with a unit of fuel for each byte
-- of the text, or more, the tokens do not depend on the fuel.
pub scan-tokens : (fuel : ℕ) (input : List ℕ) → length input ≤ fuel → scan fuel input ≡ tokens input
scan-tokens fuel input h = scan-enough fuel (length input) input h (omega arith)

-- The tokens of a text are those of its first match and of the rest.
pub tokens_step :
    (c : ℕ) (cs : List ℕ)
    → tokens (c ∷ cs) ≡ send (lexeme c cs).1 (tokens (drop (lexeme c cs).0 (c ∷ cs)))
unfolding scan
tokens_step c cs =
    let rest = drop (lexeme c cs).0 (c ∷ cs) in
    ap (send (lexeme c cs).1)
      (scan-enough (length cs) (length rest) rest (length-rest c cs) (omega arith))

-- The first byte, if there is one, is none of `p`.
abbrev pub Ends : (ℕ → Bool) → List ℕ → Type 0
Ends p [] = Unit {0}
Ends p (c ∷ cs) = p c ≡ false

munch-append :
    (p : ℕ → Bool) (w rest : List ℕ)
    → All (λ c. p c ≡ true) w
    → Ends p rest
    → munch p (w ++ rest) ≡ length w
unfolding munch
munch-append p [] [] all ends = refl
munch-append p [] (c ∷ cs) all ends = rw (munch, ends) refl
munch-append p (c ∷ w) rest (here, all) ends =
    rw (munch, here) (ap suc (munch-append p w rest all ends))

-- Digits in front of another byte are one number.
pub tokens-number :
    (d : ℕ) (ds rest : List ℕ)
    → All (λ c. is_digit c ≡ true) (d ∷ ds)
    → Ends is_digit rest
    → tokens (d ∷ (ds ++ rest)) ≡ number (d ∷ ds) ∷ tokens rest
unfolding lexeme
tokens-number d ds rest (here, all) ends =
    tokens_step d (ds ++ rest)
    ∙ rw
        (
          lexeme,
          here,
          munch-append is_digit ds rest all ends,
          take-length-append ds rest,
          drop-length-append ds rest,
        )
        refl

-- A letter and what may follow it, in front of another byte, is one word.
pub tokens_word :
    (d : ℕ) (ds rest : List ℕ)
    → is_digit d ≡ false
    → is_letter d ≡ true
    → All (λ c. is_ident c ≡ true) ds
    → Ends is_ident rest
    → tokens (d ∷ (ds ++ rest)) ≡ word_in settings (d ∷ ds) ∷ tokens rest
unfolding lexeme
tokens_word d ds rest letter here all ends =
    tokens_step d (ds ++ rest)
    ∙ rw
        (
          lexeme,
          letter,
          here,
          munch-append is_ident ds rest all ends,
          take-length-append ds rest,
          drop-length-append ds rest,
        )
        refl

-- A blank in front of a byte that is none, and a newline, are skipped.
pub tokens_blank : (rest : List ℕ) → Ends is_blank rest → tokens (32 ∷ rest) ≡ tokens rest
unfolding lexeme
tokens_blank rest ends =
    tokens_step 32 rest ∙ rw (lexeme, munch-append is_blank [] rest tt ends) refl

pub tokens-newline : (rest : List ℕ) → tokens (newline ∷ rest) ≡ tokens rest
unfolding lexeme
tokens-newline rest = tokens_step newline rest

-- A byte that stands for itself in a quoted text: no quote, no backslash and no NUL.
abbrev pub is_plain : ℕ → Bool
is_plain c = not (c == quote) && (not (c == backslash) && not (c == 0))

plain_tests :
    (c : ℕ)
    → is_plain c ≡ true
    → ((c == quote) ≡ false) × ((c == backslash) ≡ false) × ((c == 0) ≡ false)
plain_tests c h = ground arith

string_rest_plain :
    (s rest : List ℕ)
    → All (λ c. is_plain c ≡ true) s
    → string_rest (s ++ (quote ∷ rest)) ≡ some (suc (length s))
unfolding string_rest
string_rest_plain [] [] all = refl
string_rest_plain [] (c ∷ rest) all = refl
string_rest_plain (c ∷ []) rest (here, all) =
    let (unquoted, unescaped, nonzero) = plain_tests c here in
    rw (string_rest, unquoted, unescaped, string_rest_plain [] rest tt) refl
string_rest_plain (c ∷ d ∷ s) rest (here, all) =
    let (unquoted, unescaped, nonzero) = plain_tests c here in
    rw (string_rest, unquoted, unescaped, string_rest_plain (d ∷ s) rest all)
      (ap some (omega arith))

c_string_plain :
    (s : List ℕ) → All (λ c. is_plain c ≡ true) s → c_string (s ++ (quote ∷ [])) ≡ s ++ (quote ∷ [])
unfolding c_string
c_string_plain [] all = refl
c_string_plain (c ∷ s) (here, all) =
    let (unquoted, unescaped, nonzero) = plain_tests c here in
    rw (c_string, nonzero, c_string_plain s all) refl

quoted-append : (s rest : List ℕ) → (s ++ (quote ∷ [])) ++ rest ≡ s ++ (quote ∷ rest)
quoted-append [] rest = refl
quoted-append (c ∷ s) rest = ap (λ q. c ∷ q) (quoted-append s rest)

length-quote : (s : List ℕ) → suc (length s) ≡ length (s ++ (quote ∷ []))
length-quote s = omega (arith, length-append s (quote ∷ []))

-- A quoted text of plain bytes is one string.
pub tokens-quoted :
    (s rest : List ℕ)
    → All (λ c. is_plain c ≡ true) s
    → tokens (quoted s ++ rest) ≡ string (quoted s) ∷ tokens rest
unfolding lexeme c_string
tokens-quoted s rest all =
    let text = s ++ (quote ∷ []) in
    let matched : string_rest (text ++ rest) ≡ some (length text) =
      ap string_rest (quoted-append s rest)
      ∙ string_rest_plain s rest all
      ∙ ap some (length-quote s) in
    tokens_step quote (text ++ rest)
    ∙ rw
        (
          lexeme,
          matched,
          take-length-append text rest,
          drop-length-append text rest,
          c_string_plain s all,
        )
        refl

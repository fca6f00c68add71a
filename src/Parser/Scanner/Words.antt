-- ===== src/Parser/Scanner/Words.antt =====
-- src/parser/scanner.l: the ten names of settings are keywords, and printed numbers are numbers.
use dmmr_orbit.Base.{
  ℕ, zero, suc, ◌+◌, ◌/◌, ◌%◌, ◌≤◌, ◌<◌, ltb, if◌then◌else◌, Bool, Bool-cases, true, false, List,
  [], ◌∷◌, ◌++◌, length, length-append, ◌≡◌, ap, ◌∙◌, inl, inr, arith,
}
use dmmr_orbit.Base.Sort.{All}
use dmmr_orbit.Parser.{ConfigState, keyword}
use dmmr_orbit.Parser.Numbers.{digits}
use dmmr_orbit.Parser.Scanner.{is_digit, is_letter, is_blank, is_ident, settings, word_in, tokens}
use dmmr_orbit.Parser.Scanner.Munch.{Ends, tokens_word}

unfoldable pub all_ident : List ℕ → Bool
all_ident [] = true
all_ident (c ∷ cs) = let rest = all_ident cs in if is_ident c then rest else false

all_ident_sound : (w : List ℕ) → all_ident w ≡ true → All (λ c. is_ident c ≡ true) w
unfolding all_ident
all_ident_sound [] h = tt
all_ident_sound (c ∷ w) h = elim (Bool-cases (is_ident c)) [
  | inl here ↦ (here, all_ident_sound w (rw here at h))
  | inr odd ↦ absurd (cc (rw odd at h))
]

unfoldable pub is_word : List ℕ → Bool
is_word [] = false
is_word (c ∷ cs) = if is_digit c then false else if is_letter c then all_ident cs else false

word_tests :
    (c : ℕ) (cs : List ℕ)
    → is_word (c ∷ cs) ≡ true
    → (is_digit c ≡ false) × (is_letter c ≡ true) × (all_ident cs ≡ true)
unfolding is_word
word_tests c cs h = elim (Bool-cases (is_digit c)) [
  | inl digit ↦ absurd (cc (rw digit at h))
  | inr other ↦ elim (Bool-cases (is_letter c)) [
    | inl letter ↦ (other, letter, rw (other, letter) at h)
    | inr odd ↦ absurd (cc (rw (other, odd) at h))
  ]
]

-- In front of a byte that does not go on with a word, the text is the keyword of the setting.
abbrev pub ReadsAs : List ℕ → ConfigState → Type 0
ReadsAs w setting =
    (rest : List ℕ) → Ends is_ident rest → tokens (w ++ rest) ≡ keyword setting ∷ tokens rest

pub word-ReadsAs :
    (w : List ℕ) (setting : ConfigState)
    → is_word w ≡ true
    → word_in settings w ≡ keyword setting
    → ReadsAs w setting
unfolding is_word
word-ReadsAs [] setting h e rest ends = absurd (cc h)
word-ReadsAs (c ∷ cs) setting h e rest ends =
    let (digit, letter, all) = word_tests c cs h in
    tokens_word c cs rest digit letter (all_ident_sound cs all) ends ∙ ap (λ t. t ∷ tokens rest) e

digit_of : (n : ℕ) → n < 10 → is_digit (48 + n) ≡ true
digit_of n h = ground arith

All-snoc :
    (ds : List ℕ) (d : ℕ)
    → All (λ c. is_digit c ≡ true) ds
    → is_digit d ≡ true
    → All (λ c. is_digit c ≡ true) (ds ++ (d ∷ []))
All-snoc [] d all h = (h, tt)
All-snoc (e ∷ ds) d (here, all) h = (here, All-snoc ds d all h)

pub digits-All : (fuel n : ℕ) → n ≤ fuel → All (λ c. is_digit c ≡ true) (digits fuel n)
unfolding digits
digits-All zero n h = (digit_of n (omega arith), tt)
digits-All (suc fuel) n h = elim (Bool-cases (ltb n 10)) [
  | inl short ↦ rw (digits, short) (digit_of n (ground arith), tt)
  | inr long ↦
      let ten : 10 ≤ n = ground arith in
      rw (digits, long)
        (All-snoc (digits fuel (n / 10)) (48 + n % 10) (digits-All fuel (n / 10) (omega arith))
          (digit_of (n % 10) (omega arith)))
]

pub digits-pos : (fuel n : ℕ) → 0 < length (digits fuel n)
unfolding digits
digits-pos zero n = omega arith
digits-pos (suc fuel) n = elim (Bool-cases (ltb n 10)) [
  | inl short ↦ rw (digits, short) (omega arith)
  | inr long ↦
      rw (digits, long) (omega (arith, length-append (digits fuel (n / 10)) ((48 + n % 10) ∷ [])))
]

pub blank-digit : (c : ℕ) → is_digit c ≡ true → is_blank c ≡ false
blank-digit c h = ground arith

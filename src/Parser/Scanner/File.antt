-- ===== src/Parser/Scanner/File.antt =====
-- src/parser/scanner.l with src/parser/console.c: a configuration printed as a text, and what
-- `yylex` and `handle_token` make of it.
use Prim.Native.String.{String}
use dmmr_orbit.Base.{
  ℕ, ◌<◌, leb, true, false, some, List, [], ◌∷◌, ◌++◌, length, take_all, Run-cases, ret, ◌>>=◌, ◌≡◌,
  refl, ap, ◌∙◌, inl, inr, arith,
}
use dmmr_orbit.Base.Codes.{codes}
use dmmr_orbit.Base.Sort.{All}
use dmmr_orbit.Parser.{
  CfgServerServer, ConfigState, config_none, config_trunk_accept_uri, config_trunk_dispatch_uri,
  Token, keyword, number, string, ConsoleState, over, unquote_string, set_string, handle_token,
  console_run,
}
use dmmr_orbit.Parser.Numbers.{digits, print, print_numbers, InRange, console_run-print_numbers}
use dmmr_orbit.Parser.Quotes.{quoted, unquote_string-quoted}
use dmmr_orbit.Parser.Scanner.{is_digit, newline, settings, word_in, scan, tokens}
use dmmr_orbit.Parser.Scanner.Words.{
  all_ident, is_word, ReadsAs, word-ReadsAs, digits-All, digits-pos, blank-digit,
}
use dmmr_orbit.Parser.Scanner.Munch.{
  is_plain, tokens-number, tokens_blank, tokens-newline, tokens-quoted,
}

-- A setting, a blank, its value and a newline.
abbrev pub line : String → List ℕ → List ℕ → List ℕ
line name value rest = codes name ++ (32 ∷ (value ++ (newline ∷ rest)))

abbrev pub number_line : String → ℕ → List ℕ → List ℕ
number_line name n rest = line name (digits n n) rest

-- The text of a configuration with its two URIs.
abbrev pub config_text : CfgServerServer → List ℕ → List ℕ → List ℕ
config_text c accept dispatch =
    number_line "SCHEDULER_PREEMPTIVE_DEADLINE" c.scheduler_preemptive_deadline (
      number_line "SLEEP_TIME" c.sleep_time (
        number_line "SESSION_SIZE" c.session_size (
          number_line "CIRCLE_BUFFER_SIZE" c.circle_buffer_size (
            number_line "MAX_PORTS" c.max_ports (
              number_line "REAL_TIME_DEAD_LINE" c.real_time_dead_line (
                number_line "REAL_TIME_USER_DEFINED" c.real_time_user_defined (
                  number_line "RB_LOG_LEVEL" c.log_level (
                    line "TRUNK_ACCEPT_URI" (quoted accept)
                      (line "TRUNK_DISPATCH_URI" (quoted dispatch) [])))))))))

-- Digits, one or more, in front of a newline.
tokens-digits :
    (w rest : List ℕ)
    → All (λ c. is_digit c ≡ true) w
    → 0 < length w
    → (tokens (32 ∷ (w ++ (newline ∷ rest)))) ≡ number w ∷ tokens rest
tokens-digits [] rest all h = elim h [ ]
tokens-digits (d ∷ ds) rest (here, all) h =
    tokens_blank (d ∷ (ds ++ (newline ∷ rest))) (blank-digit d here)
    ∙ tokens-number d ds (newline ∷ rest) (here, all) refl
    ∙ ap (λ t. number (d ∷ ds) ∷ t) (tokens-newline rest)

tokens-number_line :
    (name : String) (setting : ConfigState) (n : ℕ) (rest : List ℕ)
    → ReadsAs (codes name) setting
    → tokens (number_line name n rest) ≡ keyword setting ∷ print n ∷ tokens rest
tokens-number_line name setting n rest reads =
    reads (32 ∷ (digits n n ++ (newline ∷ rest))) refl
    ∙ ap (λ t. keyword setting ∷ t)
        (tokens-digits (digits n n) rest (digits-All n n (omega arith)) (digits-pos n n))

tokens-text_line :
    (name : String) (setting : ConfigState) (s rest : List ℕ)
    → ReadsAs (codes name) setting
    → All (λ c. is_plain c ≡ true) s
    → tokens (line name (quoted s) rest) ≡ keyword setting ∷ string (quoted s) ∷ tokens rest
tokens-text_line name setting s rest reads plain =
    reads (32 ∷ (quoted s ++ (newline ∷ rest))) refl
    ∙ ap (λ t. keyword setting ∷ t)
        (tokens_blank (quoted s ++ (newline ∷ rest)) refl
          ∙ tokens-quoted s (newline ∷ rest) plain
          ∙ ap (λ t. string (quoted s) ∷ t) (tokens-newline rest))

abbrev uri_tokens : List ℕ → List ℕ → List Token
uri_tokens accept dispatch =
    keyword config_trunk_accept_uri
    ∷ string (quoted accept)
    ∷ keyword config_trunk_dispatch_uri
    ∷ string (quoted dispatch)
    ∷ []

-- A line in front of a text whose tokens are known.
number_then :
    (name : String) (setting : ConfigState) (n : ℕ) (rest : List ℕ) (ts : List Token)
    → is_word (codes name) ≡ true
    → word_in settings (codes name) ≡ keyword setting
    → tokens rest ≡ ts
    → tokens (number_line name n rest) ≡ keyword setting ∷ print n ∷ ts
number_then name setting n rest ts word reads next =
    tokens-number_line name setting n rest (word-ReadsAs (codes name) setting word reads)
    ∙ ap (λ t. keyword setting ∷ print n ∷ t) next

text_then :
    (name : String) (setting : ConfigState) (s rest : List ℕ) (ts : List Token)
    → is_word (codes name) ≡ true
    → word_in settings (codes name) ≡ keyword setting
    → All (λ c. is_plain c ≡ true) s
    → tokens rest ≡ ts
    → tokens (line name (quoted s) rest) ≡ keyword setting ∷ string (quoted s) ∷ ts
text_then name setting s rest ts word reads plain next =
    tokens-text_line name setting s rest (word-ReadsAs (codes name) setting word reads) plain
    ∙ ap (λ t. keyword setting ∷ string (quoted s) ∷ t) next

tokens-config_text :
    (c : CfgServerServer) (accept dispatch : List ℕ)
    → All (λ b. is_plain b ≡ true) accept
    → All (λ b. is_plain b ≡ true) dispatch
    → tokens (config_text c accept dispatch) ≡ print_numbers c ++ uri_tokens accept dispatch
unfolding is_word all_ident word_in scan
tokens-config_text c accept dispatch a d =
    number_then "SCHEDULER_PREEMPTIVE_DEADLINE" _ _ _ _ refl refl (
      number_then "SLEEP_TIME" _ _ _ _ refl refl (
        number_then "SESSION_SIZE" _ _ _ _ refl refl (
          number_then "CIRCLE_BUFFER_SIZE" _ _ _ _ refl refl (
            number_then "MAX_PORTS" _ _ _ _ refl refl (
              number_then "REAL_TIME_DEAD_LINE" _ _ _ _ refl refl (
                number_then "REAL_TIME_USER_DEFINED" _ _ _ _ refl refl (
                  number_then "RB_LOG_LEVEL" _ _ _ _ refl refl (
                    text_then "TRUNK_ACCEPT_URI" _ _ _ _ refl refl a
                      (text_then "TRUNK_DISPATCH_URI" _ _ _ _ refl refl d refl)))))))))

console_run-append :
    (ts us : List Token) (s : ConsoleState)
    → console_run (ts ++ us) s ≡ (console_run ts s >>= console_run us)
unfolding console_run
console_run-append [] us s = refl
console_run-append (t ∷ ts) us s = elim (Run-cases (handle_token t s)) [
  | inl (s', e) ↦ rw (console_run, e) (console_run-append ts us s')
  | inr (inl e) ↦ rw (console_run, e) refl
  | inr (inr e) ↦ rw (console_run, e) refl
]

-- A URI in a buffer of 0x40 bytes.
unquoted :
    (old s : List ℕ)
    → length s < 0x40
    → unquote_string old 0x40 (quoted s) ≡ over (s ++ (0 ∷ [])) old
unquoted old s h =
    let short : leb 0x40 (length s) ≡ false = ground arith in
    unquote_string-quoted old 0x40 s (omega arith) ∙ rw (short, take_all s) refl

-- The configuration with its two buffers written from the start on.
abbrev pub with_uris : CfgServerServer → CfgServerServer → List ℕ → List ℕ → CfgServerServer
with_uris c old accept dispatch = record c {
  trunk_accept_uri = over (accept ++ (0 ∷ [])) old.trunk_accept_uri;
  trunk_dispatch_uri = over (dispatch ++ (0 ∷ [])) old.trunk_dispatch_uri;
}

-- URIs that their buffers hold, of bytes that a quoted text holds as they are.
pub record IsUri (s : List ℕ) : Type 0 where
  pub plain : All (λ b. is_plain b ≡ true) s
  pub fits : length s < 0x40

-- Scanned and handled from any state with a configuration, the text of a configuration whose numbers
-- are in range, with two URIs of at most 63 bytes that are no quote, backslash or NUL, gives that
-- configuration; each URI stands with a NUL at the start of its buffer.
pub console_run-config_text :
    (c old : CfgServerServer) (setting : ConfigState) (accept dispatch : List ℕ)
    → InRange c
    → IsUri accept
    → IsUri dispatch
    → console_run
        (tokens (config_text c accept dispatch))
        (record { cfg = some old; current_setting = setting })
      ≡ ret (record { cfg = some (with_uris c old accept dispatch); current_setting = config_none })
unfolding console_run handle_token set_string
console_run-config_text c old setting accept dispatch r a d =
    let start : ConsoleState = record { cfg = some old; current_setting = setting } in
    ap (λ ts. console_run ts start) (tokens-config_text c accept dispatch a.plain d.plain)
    ∙ console_run-append (print_numbers c) (uri_tokens accept dispatch) start
    ∙ ap (λ q. q >>= console_run (uri_tokens accept dispatch))
        (console_run-print_numbers c old setting r)
    ∙ rw
        (
          unquoted old.trunk_accept_uri accept a.fits,
          unquoted old.trunk_dispatch_uri dispatch d.fits,
        )
        refl

-- ===== src/Parser/Scanner.antt =====
-- src/parser/scanner.l: the tokens of a configuration's text.
-- The rules of the file are taken with the meaning that flex gives them: the longest match, and of two
-- equally long ones the rule that stands first, so that a word is a keyword when it is one of the ten
-- names. A byte outside a text that no rule begins is a token of its own.
pub mod File
pub mod Munch
pub mod Words
use Prim.Native.String.{String}
use dmmr_orbit.Base.{
  ℕ, zero, suc, ◌+◌, leb, ◌==◌, if◌then◌else◌, ◌&&◌, ◌||◌, not, Bool, true, false, Option, none,
  some, List, [], ◌∷◌, length, take, drop,
}
use dmmr_orbit.Base.Codes.{codes}
use dmmr_orbit.Parser.{
  ConfigState, Token, keyword, number, string, other, quote, config_scheduler_preemptive_deadline,
  config_sleep_time, config_session_size, config_circle_buffer_size, config_max_ports,
  config_real_time_dead_line, config_real_time_user_defined, config_trunk_accept_uri,
  config_trunk_dispatch_uri, config_rb_log_level,
}

-- DIGIT, LETTER, WS and NEWLINE.
abbrev pub is_digit : ℕ → Bool
is_digit c = leb b'0' c && leb c b'9'

abbrev pub is_letter : ℕ → Bool
is_letter c = leb b'a' c && leb c b'z' || leb b'A' c && leb c b'Z'

abbrev pub is_blank : ℕ → Bool
is_blank c = c == 32 || c == 9

abbrev pub newline : ℕ
newline = 10

abbrev pub backslash : ℕ
backslash = 92

-- What may follow the first letter of IDENT.
abbrev pub is_ident : ℕ → Bool
is_ident c = is_letter c || is_digit c || c == b'_'

-- How many bytes `p*` matches.
unfoldable pub munch : (ℕ → Bool) → List ℕ → ℕ
munch p [] = 0
munch p (c ∷ cs) = let rest = munch p cs in if p c then suc rest else 0

abbrev pub add_to : ℕ → Option ℕ → Option ℕ
add_to n none = none
add_to n (some k) = some (n + k)

-- How many bytes `([^\\\"]|\\.)*\"` matches, behind the first quote; `none` where it does not match.
unfoldable pub string_rest : List ℕ → Option ℕ
string_rest [] = none
string_rest (c ∷ []) = if c == quote then some 1 else none
string_rest (c ∷ d ∷ cs) =
    let escaped = string_rest cs in
    let plain = string_rest (d ∷ cs) in
    if c == quote
    then some 1
    else if c == backslash
    then (if d == newline then none else add_to 2 escaped)
    else add_to 1 plain

abbrev pub same_bytes : List ℕ → List ℕ → Bool
same_bytes [] [] = true
same_bytes [] (d ∷ ds) = false
same_bytes (c ∷ cs) [] = false
same_bytes (c ∷ cs) (d ∷ ds) = c == d && same_bytes cs ds

-- The name of a setting in the rules.
abbrev pub Setting : Type 0
Setting = String × ConfigState

abbrev pub settings : List Setting
settings =
    ("SESSION_SIZE", config_session_size)
    ∷ ("SLEEP_TIME", config_sleep_time)
    ∷ ("CIRCLE_BUFFER_SIZE", config_circle_buffer_size)
    ∷ ("MAX_PORTS", config_max_ports)
    ∷ ("REAL_TIME_DEAD_LINE", config_real_time_dead_line)
    ∷ ("REAL_TIME_USER_DEFINED", config_real_time_user_defined)
    ∷ ("TRUNK_ACCEPT_URI", config_trunk_accept_uri)
    ∷ ("TRUNK_DISPATCH_URI", config_trunk_dispatch_uri)
    ∷ ("SCHEDULER_PREEMPTIVE_DEADLINE", config_scheduler_preemptive_deadline)
    ∷ ("RB_LOG_LEVEL", config_rb_log_level)
    ∷ []

-- The ten first rules; any other word is an IDENT.
unfoldable pub word_in : List Setting → List ℕ → Token
word_in [] w = other
word_in ((name, setting) ∷ rest) w =
    let later = word_in rest w in if same_bytes w (codes name) then keyword setting else later

-- A text as the C functions see it: up to its first NUL.
unfoldable pub c_string : List ℕ → List ℕ
c_string [] = []
c_string (c ∷ cs) = let rest = c_string cs in if c == 0 then [] else c ∷ rest

-- The match at the start of `c ∷ cs`: its length, and what is sent.
unfoldable pub lexeme : ℕ → List ℕ → ℕ × Option Token
unfolding munch string_rest word_in c_string
lexeme c cs =
    if is_digit c
    then (let n = suc (munch is_digit cs) in (n, some (number (take n (c ∷ cs)))))
    else if is_letter c
    then (let n = suc (munch is_ident cs) in (n, some (word_in settings (take n (c ∷ cs)))))
    else if c == quote
    then elim (string_rest cs) [
      | none ↦ (1, some other)
      | some n ↦ (suc n, some (string (c_string (take (suc n) (c ∷ cs)))))
    ]
    else if is_blank c
    then (suc (munch is_blank cs), none)
    else if c == newline
    then (1, none)
    else (1, some other)

abbrev pub send : Option Token → List Token → List Token
send none ts = ts
send (some t) ts = t ∷ ts

-- The calls of `yylex` up to the end of the text. The fuel counts the matches.
unfoldable pub scan : ℕ → List ℕ → List Token
unfolding lexeme
scan zero input = []
scan (suc fuel) [] = []
scan (suc fuel) (c ∷ cs) =
    let (n, t) = lexeme c cs in let rest = scan fuel (drop n (c ∷ cs)) in send t rest

-- Each match has a byte or more, so the length is enough fuel.
abbrev pub tokens : List ℕ → List Token
tokens input = scan (length input) input

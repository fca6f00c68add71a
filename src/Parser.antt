-- ===== src/Parser.antt =====
-- src/parser/console.c: the handler of the tokens that the scanner sends, which fills the
-- configuration; and `unquote_string` of src/include/unquote_string.h.
-- The scanner sends KEYWORD with one of ten fixed words, so a keyword is the setting it names; the
-- text of a NUMBER is one or more digits. A string is the list of its bytes, without the NUL.
pub mod Numbers
pub mod Quotes
pub mod Reload
pub mod Scanner
pub mod Uri
pub mod Tests
use dmmr_orbit.Base.{
  ℕ, zero, suc, ◌+◌, ◌-◌, ◌*◌, ◌%◌, ◌^◌, ltb, leb, ◌==◌, if◌then◌else◌, ◌&&◌, Bool, true, false,
  Option, none, some, List, [], ◌∷◌, ◌++◌, Run, ret, fault, ◌>>=◌, get_elem?, take, drop, length,
  replicate,
}

-- `struct cfg_server_server`.
pub record CfgServerServer : Type 0 where
  pub scheduler_preemptive_deadline : ℕ
  pub real_time_dead_line : ℕ
  pub real_time_user_defined : ℕ
  pub circle_buffer_size : ℕ
  pub sleep_time : ℕ
  pub session_size : ℕ
  pub max_ports : ℕ
  pub log_level : ℕ
  pub trunk_accept_uri : List ℕ
  pub trunk_dispatch_uri : List ℕ

-- `ConfigState`.
pub data ConfigState : Type 0 where
  config_none : ConfigState
  config_scheduler_preemptive_deadline config_sleep_time config_session_size : ConfigState
  config_circle_buffer_size config_max_ports config_real_time_dead_line : ConfigState
  config_real_time_user_defined config_trunk_accept_uri config_trunk_dispatch_uri : ConfigState
  config_rb_log_level : ConfigState

pub data Token : Type 0 where
  keyword : ConfigState → Token
  number : List ℕ → Token
  string : List ℕ → Token
  -- Every other token.
  other : Token

-- `struct console_state`, without the file.
pub record ConsoleState : Type 0 where
  pub cfg : Option CfgServerServer
  pub current_setting : ConfigState

-- The value of digits read so far, and more digits.
unfoldable pub decimal : ℕ → List ℕ → ℕ
decimal v [] = v
decimal v (d ∷ ds) = decimal (v * 10 + (d - 48)) ds

-- `strtoull(value, NULL, 10)` on digits: the greatest value on overflow.
abbrev pub strtoull : List ℕ → ℕ
strtoull ds = if ltb (decimal 0 ds) (2 ^ 64) then decimal 0 ds else 2 ^ 64 - 1

-- `atoi` on digits: undefined where the value is no int.
abbrev pub atoi : List ℕ → Run ℕ
atoi ds = if ltb (decimal 0 ds) (2 ^ 31) then ret (decimal 0 ds) else fault

-- The bytes written over the start of a buffer.
abbrev pub over : List ℕ → List ℕ → List ℕ
over bytes dest = bytes ++ drop (length bytes) dest

-- `strncpy(dest, input, n)`: at most `n` bytes, and NULs up to `n` of them.
abbrev pub strncpy : List ℕ → List ℕ → ℕ → List ℕ
strncpy dest input n = over (take n input ++ replicate (n - length input) 0) dest

abbrev pub quote : ℕ
quote = 34

abbrev pub is_quote : Option ℕ → Bool
is_quote none = false
is_quote (some c) = c == quote

unfoldable pub unquote_string : List ℕ → ℕ → List ℕ → List ℕ
unquote_string dest dest_size input =
    if dest_size == 0
    then dest
    else (let len = length input in
        if leb 2 len && (is_quote (get_elem? input 0) && is_quote (get_elem? input (len - 1)))
        then (let inner_len = if leb dest_size (len - 2) then dest_size - 1 else len - 2 in
            over (take inner_len (drop 1 input) ++ (0 ∷ [])) dest)
        else (let copied = strncpy dest input (dest_size - 1) in
            take (dest_size - 1) copied ++ (0 ∷ drop dest_size copied)))

-- The switch of the NUMBER branch.
unfoldable pub set_number : ConfigState → List ℕ → CfgServerServer → Run CfgServerServer
set_number config_none v c = ret c
set_number config_scheduler_preemptive_deadline v c =
    ret (record c { scheduler_preemptive_deadline = strtoull v })
set_number config_sleep_time v c = atoi v >>= λ n. ret (record c { sleep_time = n % 2 ^ 16 })
set_number config_session_size v c = atoi v >>= λ n. ret (record c { session_size = n % 2 ^ 16 })
set_number config_circle_buffer_size v c =
    atoi v >>= λ n. ret (record c { circle_buffer_size = n % 2 ^ 32 })
set_number config_max_ports v c = atoi v >>= λ n. ret (record c { max_ports = n % 2 ^ 16 })
set_number config_real_time_dead_line v c = ret (record c { real_time_dead_line = strtoull v })
set_number config_real_time_user_defined v c =
    ret (record c { real_time_user_defined = strtoull v })
set_number config_trunk_accept_uri v c = ret c
set_number config_trunk_dispatch_uri v c = ret c
set_number config_rb_log_level v c = atoi v >>= λ n. ret (record c { log_level = n % 2 ^ 8 })

-- The switch of the STRING branch: both buffers have 0x40 bytes.
unfoldable pub set_string : ConfigState → List ℕ → CfgServerServer → CfgServerServer
set_string config_none v c = c
set_string config_scheduler_preemptive_deadline v c = c
set_string config_sleep_time v c = c
set_string config_session_size v c = c
set_string config_circle_buffer_size v c = c
set_string config_max_ports v c = c
set_string config_real_time_dead_line v c = c
set_string config_real_time_user_defined v c = c
set_string config_trunk_accept_uri v c = record c {
  trunk_accept_uri = unquote_string c.trunk_accept_uri 0x40 v;
}
set_string config_trunk_dispatch_uri v c = record c {
  trunk_dispatch_uri = unquote_string c.trunk_dispatch_uri 0x40 v;
}
set_string config_rb_log_level v c = c

unfoldable pub handle_token : Token → ConsoleState → Run ConsoleState
handle_token token s = elim s.cfg [
  | none ↦ ret s
  | some c ↦ elim token [
    | keyword setting ↦ ret (record s { current_setting = setting })
    | number v ↦ set_number s.current_setting v c >>= λ c'.
        ret (record { cfg = some c'; current_setting = config_none })
    | string v ↦
        ret
          (record { cfg = some (set_string s.current_setting v c); current_setting = config_none })
    | other ↦ ret s
  ]
]

-- The calls that `yylex` makes while `console_run` loops.
unfoldable pub console_run : List Token → ConsoleState → Run ConsoleState
console_run [] s = ret s
console_run (token ∷ tokens) s = handle_token token s >>= λ s'. console_run tokens s'

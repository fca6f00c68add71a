-- ===== src/Parser/Reload.antt =====
-- src/parser/dmmr_parser.c over src/parser/console.c: the configuration's file is read at the start
-- and again when its checksum has changed.
-- Both configurations that the parser points to are set. Every call sees the same content of the file.
pub mod Settled
pub mod Text
use dmmr_orbit.Base.{
  ℕ, ◌==◌, if◌then◌else◌, ◌&&◌, not, Bool, Bool-cases, Option-cases, true, false, Option, none,
  some, List, [], concat, Run, ret, fault, hang, ◌>>=◌, OnRet, OnRet-bind, OnRet-any, ◌≡◌, refl,
  sym, ap, ◌∙◌, ◌⊎◌, inl, inr, arith,
}
use dmmr_orbit.Base.Int.{ℤ, pos, eof, eqb_ℤ}
use dmmr_orbit.Base.Codes.{codes}
use dmmr_orbit.Exception.{LogCall, construct}
use dmmr_orbit.Checksum.{crc32_file, generate_crc32_table}
use dmmr_orbit.Parser.Scanner.{tokens}
use dmmr_orbit.Parser.{CfgServerServer, ConfigState, config_none, Token, ConsoleState, console_run}

-- The reads of the file, `none` where it cannot be opened.
pub record ConfigFile : Type 0 where
  pub content : Option (List (List ℕ))

-- What the scanner makes of it.
abbrev pub file_tokens : ConfigFile → List Token
file_tokens file = elim file.content [ none ↦ [] | some pieces ↦ tokens (concat pieces) ]

-- The static state of both files: `has_cfg` and `has_file` tell whether `state.cfg`, which then is
-- `config`, and `state.input_file` are set.
pub record ParserState : Type 0 where
  pub last_crc : ℕ
  pub crc_table : List ℕ
  pub config : CfgServerServer
  pub has_cfg : Bool
  pub has_file : Bool
  pub current_setting : ConfigState

unfoldable pub console_setup : ConfigFile → ParserState → ℤ × ParserState
console_setup file s =
    let fresh = record s { has_cfg = true; has_file = false; current_setting = config_none } in
    elim file.content [
      | none ↦ (eof, fresh)
      | some pieces ↦ (pos 0, record fresh { has_file = true })
    ]

-- The state after `yylex` has returned 0.
abbrev pub with_console : ParserState → ConsoleState → ParserState
with_console s r = record s {
  config = elim r.cfg [ none ↦ s.config | some c ↦ c ];
  current_setting = r.current_setting;
}

-- `console_run` of the source.
unfoldable pub run_console : ConfigFile → ParserState → Run (ℤ × ParserState)
run_console file s =
    if s.has_file && s.has_cfg
    then (console_run (file_tokens file)
          (record { cfg = some s.config; current_setting = s.current_setting })
        >>= λ r. ret (pos 0, with_console s r))
    else ret (eof, s)

abbrev pub console_cleanup : ParserState → ParserState
console_cleanup s = record s { has_cfg = false; has_file = false; current_setting = config_none }

-- What follows `console_run` in a load.
abbrev pub remember_crc : ConfigFile → ℤ × ParserState → Run (ℤ × ParserState)
remember_crc file (status, s) =
    if eqb_ℤ status (pos 0)
    then ret (
      pos 0,
      record s {
        crc_table = generate_crc32_table;
        last_crc = crc32_file generate_crc32_table file.content;
      },
    )
    else ret (eof, s)

abbrev pub run_after_setup : ConfigFile → ℤ × ParserState → Run (ℤ × ParserState)
run_after_setup file (status, s) =
    if eqb_ℤ status (pos 0) then run_console file s >>= remember_crc file else ret (eof, s)

unfoldable pub parser_load_config : ConfigFile → ParserState → Run (ℤ × ParserState)
unfolding console_setup run_console
parser_load_config file s = run_after_setup file (console_setup file s)

abbrev pub run_again : ConfigFile → ℤ × ParserState → Run ParserState
run_again file (status, s) =
    if eqb_ℤ status (pos 0) then (run_console file s >>= λ (status', s'). ret s') else ret s

unfoldable pub parser_reload_config : ConfigFile → ParserState → Run ParserState
unfolding console_setup run_console
parser_reload_config file s =
    let crc = crc32_file s.crc_table file.content in
    if not (crc == 0) && not (crc == s.last_crc)
    then run_again file (console_setup file (console_cleanup (record s { last_crc = crc })))
    else ret s

-- A reload of the same file, behind a load that returned 0.
abbrev pub reload_loaded : ConfigFile → ℤ × ParserState → Run (ℤ × ParserState)
reload_loaded file (status, s) =
    if eqb_ℤ status (pos 0)
    then (parser_reload_config file s >>= λ s'. ret (status, s'))
    else ret (status, s)

-- `parser_stop_config`, which also clears a `run` that nothing reads.
unfoldable pub parser_stop_config : ParserState → ParserState
parser_stop_config s = console_cleanup s

-- `has_args` says whether both configurations are not null.
unfoldable pub new_dmmr_parser : Bool → Bool → Bool × List LogCall
unfolding construct
new_dmmr_parser has_args allocated = construct has_args allocated (codes "Parser configurado")

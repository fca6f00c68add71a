-- ===== src/Parser/Reload/Text.antt =====
-- src/parser/dmmr_parser.c: a load of a printed configuration.
use dmmr_orbit.Base.{◌≢◌, ◌==◌, false, arith, ℕ, true, some, List, concat, ret, ◌>>=◌, ◌≡◌, ap, ◌∙◌}
use dmmr_orbit.Base.Int.{pos}
use dmmr_orbit.Checksum.{crc32_file, generate_crc32_table}
use dmmr_orbit.Parser.{CfgServerServer, ConsoleState, config_none, console_run}
use dmmr_orbit.Parser.Numbers.{InRange}
use dmmr_orbit.Parser.Scanner.{tokens}
use dmmr_orbit.Parser.Scanner.File.{config_text, with_uris, IsUri, console_run-config_text}
use dmmr_orbit.Parser.Reload.{
  ConfigFile, ParserState, with_console, remember_crc, parser_load_config, parser_reload_config,
}

-- However the reads cut its text: a file that holds a configuration in range, printed with two URIs of
-- at most 63 bytes that are no quote, backslash or NUL, is loaded with result 0, and the parser's
-- configuration is then that one, each URI with a NUL at the start of its buffer; the checksum kept is
-- the file's.
pub parser_load_config-config_text :
    (c : CfgServerServer) (accept dispatch : List ℕ) (pieces : List (List ℕ)) (s : ParserState)
    → InRange c
    → IsUri accept
    → IsUri dispatch
    → concat pieces ≡ config_text c accept dispatch
    → parser_load_config (record { content = some pieces }) s
      ≡ ret (
        pos 0,
        record {
          last_crc = crc32_file generate_crc32_table (some pieces);
          crc_table = generate_crc32_table;
          config = with_uris c s.config accept dispatch;
          has_cfg = true;
          has_file = true;
          current_setting = config_none;
        },
      )
unfolding parser_load_config
parser_load_config-config_text c accept dispatch pieces s r a d text =
    let file : ConfigFile = record { content = some pieces } in
    let start : ConsoleState = record { cfg = some s.config; current_setting = config_none } in
    let s1 : ParserState = record s {
      has_cfg = true;
      has_file = true;
      current_setting = config_none;
    } in
    ap (λ q. (q >>= λ r'. ret (pos 0, with_console s1 r')) >>= remember_crc file)
      (ap (λ t. console_run (tokens t) start) text
        ∙ console_run-config_text c s.config config_none accept dispatch r a d)

-- A reload of such a file whose checksum is a new one, and not 0, likewise puts it in force.
pub parser_reload_config-config_text :
    (c : CfgServerServer) (accept dispatch : List ℕ) (pieces : List (List ℕ)) (s : ParserState)
    → InRange c
    → IsUri accept
    → IsUri dispatch
    → concat pieces ≡ config_text c accept dispatch
    → crc32_file s.crc_table (some pieces) ≢ 0
    → crc32_file s.crc_table (some pieces) ≢ s.last_crc
    → parser_reload_config (record { content = some pieces }) s
      ≡ ret (record {
        last_crc = crc32_file s.crc_table (some pieces);
        crc_table = s.crc_table;
        config = with_uris c s.config accept dispatch;
        has_cfg = true;
        has_file = true;
        current_setting = config_none;
      })
unfolding parser_reload_config
parser_reload_config-config_text c accept dispatch pieces s r a d text some_crc new =
    let crc = crc32_file s.crc_table (some pieces) in
    let start : ConsoleState = record { cfg = some s.config; current_setting = config_none } in
    let s1 : ParserState = record s {
      last_crc = crc;
      has_cfg = true;
      has_file = true;
      current_setting = config_none;
    } in
    let nonzero : (crc == 0) ≡ false = ground arith in
    let other : (crc == s.last_crc) ≡ false = ground arith in
    rw (parser_reload_config, nonzero, other)
      (ap (λ q. (q >>= λ r'. ret (pos 0, with_console s1 r')) >>= λ (status, s'). ret s')
        (ap (λ t. console_run (tokens t) start) text
          ∙ console_run-config_text c s.config config_none accept dispatch r a d))

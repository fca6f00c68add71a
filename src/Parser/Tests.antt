-- ===== src/Parser/Tests.antt =====
-- A configuration, its file and a URI.
use dmmr_orbit.Base.{ℕ, ◌≡◌, arith, some, List, [], ◌∷◌, ◌++◌, ret, replicate}
use dmmr_orbit.Protocol.{proto_udp, proto_tcp}
use mathlib.Core.List.{append-nil}
use dmmr_orbit.Base.{true, refl}
use dmmr_orbit.Base.Codes.{codes}
use dmmr_orbit.Base.Int.{pos}
use dmmr_orbit.Checksum.{crc32_file, generate_crc32_table}
use dmmr_orbit.Parser.{other}
use dmmr_orbit.Parser.Numbers.{InRange}
use dmmr_orbit.Parser.Scanner.{tokens, scan, lexeme, munch, word_in, string_rest}
use dmmr_orbit.Parser.Scanner.File.{config_text, with_uris, IsUri}
use dmmr_orbit.Parser.Reload.{file_tokens}
use dmmr_orbit.Parser.Reload.Text.{parser_load_config-config_text}
use dmmr_orbit.Parser.{CfgServerServer, config_none, config_max_ports, over}
use dmmr_orbit.Parser.Numbers.{digits}
use dmmr_orbit.Base.{◌>>=◌, false}
use dmmr_orbit.Parser.{number, keyword}
use dmmr_orbit.Parser.Reload.{
  ConfigFile, ParserState, parser_load_config, parser_reload_config, reload_loaded,
}
use dmmr_orbit.Parser.Reload.Settled.{reload_settled}
use dmmr_orbit.Parser.Uri.{parse_protocol_host_port, udp_proto, tcp_proto, colon}
use dmmr_orbit.Parser.Uri.RoundTrip.{parse_protocol_host_port-append}

abbrev pub cfg_of : ℕ → CfgServerServer
cfg_of n = record {
  scheduler_preemptive_deadline = n;
  real_time_dead_line = n;
  real_time_user_defined = n;
  circle_buffer_size = n;
  sleep_time = n;
  session_size = n;
  max_ports = n;
  log_level = n;
  trunk_accept_uri = [];
  trunk_dispatch_uri = [];
}

pub cfg_of-InRange : InRange (cfg_of 31)
cfg_of-InRange = record {
  preemptive = omega arith;
  sleep = omega arith;
  session = omega arith;
  buffer = omega arith;
  ports = omega arith;
  dead_line = omega arith;
  user_defined = omega arith;
  level = omega arith;
}

abbrev host : List ℕ
host = 58 ∷ 58 ∷ 49 ∷ []

parse_protocol_host_port_example :
    (parse_protocol_host_port
        (udp_proto ++ (host ++ (colon ∷ digits 8080 8080)))
        (replicate 8 0)
        8
        1
      ≡ ret (proto_udp, over (host ++ (0 ∷ [])) (replicate 8 0), 8080))
    × (parse_protocol_host_port
          (tcp_proto ++ (host ++ (colon ∷ digits 8080 8080)))
          (replicate 8 0)
          8
          1
        ≡ ret (proto_tcp, over (host ++ (0 ∷ [])) (replicate 8 0), 8080))
parse_protocol_host_port_example =
    parse_protocol_host_port-append host (replicate 8 0) 8 8080 1 (omega arith) (omega arith)
      (omega arith)

-- "MAX_PORTS 7" in two reads.
abbrev ports_file : ConfigFile
ports_file = record { content = some (codes "MAX_POR" ∷ codes "TS 7" ∷ []) }

ports_tokens : file_tokens ports_file ≡ keyword config_max_ports ∷ number (55 ∷ []) ∷ []
unfolding scan lexeme munch word_in
ports_tokens = refl

-- A text that does not end is no string, and its escaped quote no end.
open_text : tokens (codes "\"b\\\"c") ≡ other ∷ other ∷ other ∷ other ∷ other ∷ []
unfolding scan lexeme munch word_in string_rest
open_text = refl

abbrev pub unread : ParserState
unread = record {
  last_crc = 0;
  crc_table = replicate 256 0;
  config = cfg_of 0;
  has_cfg = false;
  has_file = false;
  current_setting = config_none;
}

reload_settled_example :
    ((parser_reload_config ports_file unread >>= parser_reload_config ports_file)
      ≡ parser_reload_config ports_file unread)
    × ((parser_load_config ports_file unread >>= reload_loaded ports_file)
        ≡ parser_load_config ports_file unread)
reload_settled_example = reload_settled ports_file unread

pub test_IsUri : IsUri (codes "UDP/h:1")
test_IsUri = record {
  plain = (refl, (refl, (refl, (refl, (refl, (refl, (refl, tt)))))));
  fits = omega arith;
}

parser_load_config_example :
    parser_load_config
      (record { content = some (config_text (cfg_of 31) (codes "UDP/h:1") (codes "UDP/h:1") ∷ []) })
      unread
    ≡ ret (
      pos 0,
      record {
        last_crc =
            crc32_file generate_crc32_table
              (some (config_text (cfg_of 31) (codes "UDP/h:1") (codes "UDP/h:1") ∷ []));
        crc_table = generate_crc32_table;
        config = with_uris (cfg_of 31) (cfg_of 0) (codes "UDP/h:1") (codes "UDP/h:1");
        has_cfg = true;
        has_file = true;
        current_setting = config_none;
      },
    )
parser_load_config_example =
    parser_load_config-config_text (cfg_of 31) (codes "UDP/h:1") (codes "UDP/h:1") _ unread
      cfg_of-InRange test_IsUri test_IsUri (append-nil _)

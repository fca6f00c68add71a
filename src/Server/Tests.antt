-- ===== src/Server/Tests.antt =====
-- A foreground server whose file changes, and the options that start it or the daemon.
use dmmr_orbit.Base.{
  ℕ, ◌%◌, ◌^◌, true, false, none, some, List, [], ◌∷◌, ret, fault, ◌>>=◌, ◌≡◌, ◌≢◌, ◌⊎◌, refl,
  arith,
}
use mathlib.Core.List.{append-nil}
use dmmr_orbit.Base.Int.{pos}
use dmmr_orbit.Base.Codes.{codes}
use dmmr_orbit.Checksum.{crc32_file, generate_crc32_table, table_rounds, crc_bits, crc_bit}
use dmmr_orbit.Parser.Numbers.{digits}
use dmmr_orbit.Parser.{config_none}
use dmmr_orbit.Parser.Tests.{cfg_of, cfg_of-InRange, unread, test_IsUri}
use dmmr_orbit.Parser.Reload.{ParserState}
use dmmr_orbit.Parser.Scanner.File.{config_text, with_uris}
use dmmr_orbit.Server.Foreground.{rounds_until_signal, all_stopped, run_foreground_lem}
use dmmr_orbit.Exception.{invalid_code}
use dmmr_orbit.Server.{Outcomes, no_components, new_dmmr_server, run_foreground}
use dmmr_orbit.Server.Arguments.{main_lem}
use dmmr_orbit.Server.Start.{run_foreground_faults}
use dmmr_orbit.Server.Daemon.{Answers, child}
use dmmr_orbit.Server.Detached.{run_daemon_lem}
use dmmr_orbit.Server.Main.{file, daemon, main, result_of, run_daemon}
use dmmr_orbit.Text.Copy.{IsText}

abbrev no_socket : Outcomes
no_socket = record {
  parser_created = true;
  parser_loaded = true;
  circle_buffer_created = true;
  circle_buffer_started = true;
  sock_created = false;
  scheduler_created = true;
  scheduler_started = true;
  session_manager_created = true;
  plugin_created = true;
}

abbrev good_start : Outcomes
good_start = record no_socket { sock_created = true }

abbrev new_text : List ℕ
new_text = config_text (cfg_of 31) (codes "UDP/h:1") (codes "UDP/h:1")

abbrev loaded : ParserState
loaded = record unread { crc_table = generate_crc32_table; last_crc = 1 }

new_crc : crc32_file generate_crc32_table (some (new_text ∷ [])) ≡ 972048128
unfolding crc32_file generate_crc32_table digits table_rounds crc_bits crc_bit
new_crc = refl

-- A round that no signal comes in, behind a start without a socket.
run_foreground_faults_example :
    run_foreground true true no_socket no_components
      (record { file = record { content = none }; signals = [] } ∷ [])
      loaded
    ≡ fault
run_foreground_faults_example =
    run_foreground_faults no_socket no_components
      (record { file = record { content = none }; signals = [] }) [] loaded refl

run_foreground_example :
    run_foreground true true good_start no_components
      (rounds_until_signal (record { content = some (new_text ∷ []) }) 3)
      loaded
    ≡ ret (
        some (
          pos 0,
          record {
            last_crc = crc32_file generate_crc32_table (some (new_text ∷ []));
            crc_table = generate_crc32_table;
            config = with_uris (cfg_of 31) (cfg_of 0) (codes "UDP/h:1") (codes "UDP/h:1");
            has_cfg = true;
            has_file = true;
            current_setting = config_none;
          },
          all_stopped,
        ))
run_foreground_example =
    run_foreground_lem good_start no_components (cfg_of 31) (codes "UDP/h:1") (codes "UDP/h:1")
      (new_text ∷ []) 3 loaded refl cfg_of-InRange test_IsUri test_IsUri (append-nil new_text)
      (omega (arith, new_crc)) (omega (arith, new_crc))

abbrev detached : Answers
detached = record {
  first_fork = child;
  has_session = true;
  second_fork = child;
  null_device = some 0;
  error_text = invalid_code;
  daemon_allocated = true;
  server_allocated = true;
}

run_daemon_example : run_daemon detached (record { content = none }) loaded ≡ fault
run_daemon_example = run_daemon_lem detached (record { content = none }) loaded

conf_IsText : IsText (codes "dmmr.conf")
conf_IsText = ground arith

main_example :
    ((257 % 2 ^ 8 ≡ 0)
      × (main
            (λ path. true)
            (file (codes "dmmr.conf") ∷ daemon (digits 257 257) ∷ [])
            detached
            true
            good_start
            (record { content = none })
            []
            loaded
          ≡ (run_foreground true (new_dmmr_server true true).0 good_start no_components [] loaded
              >>= λ ended. ret (result_of ended))))
    ⊎ ((257 % 2 ^ 8 ≢ 0)
        × (main
              (λ path. true)
              (file (codes "dmmr.conf") ∷ daemon (digits 257 257) ∷ [])
              detached
              true
              good_start
              (record { content = none })
              []
              loaded
            ≡ (run_daemon detached (record { content = none }) loaded >>= λ ended.
                ret (some ended))))
main_example =
    main_lem (λ path. true) (codes "dmmr.conf") 257 detached true good_start
      (record { content = none }) [] loaded conf_IsText (omega arith) refl

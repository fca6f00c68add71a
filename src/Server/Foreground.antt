-- ===== src/Server/Foreground.antt =====
-- src/main.c with src/server/dmmr_server.c and src/parser/dmmr_parser.c: the foreground server from its
-- start to a signal, while the configuration's file changes.
use dmmr_orbit.Base.{
  ℕ, zero, suc, true, some, List, [], ◌∷◌, ◌++◌, concat, replicate, ret, ◌>>=◌, ◌≡◌, ◌≢◌, refl, sym,
  ap, ◌∙◌, inl, inr,
}
use dmmr_orbit.Base.Int.{pos}
use dmmr_orbit.Checksum.{crc32_file}
use dmmr_orbit.Parser.{CfgServerServer, config_none}
use dmmr_orbit.Parser.Numbers.{InRange}
use dmmr_orbit.Parser.Reload.{ConfigFile, ParserState, parser_reload_config}
use dmmr_orbit.Parser.Reload.Settled.{reload_settled}
use dmmr_orbit.Parser.Reload.Text.{parser_reload_config-config_text}
use dmmr_orbit.Parser.Scanner.File.{config_text, with_uris, IsUri}
use dmmr_orbit.Server.{
  Components, Outcomes, Action, stop, free, log_shutdown, free_server, log_flush, parser,
  circle_buffer, sock, scheduler, session_manager, plugin, Round, foreground_loop, server_run,
  run_foreground, sigterm, server_stop, rollback,
}
use dmmr_orbit.Server.Start.{all_well, all_components, server_start_lem}

-- Rounds that find the same file; SIGTERM comes in the last one.
abbrev pub rounds_until_signal : ConfigFile → ℕ → List Round
rounds_until_signal file n =
    replicate n (record { file = file; signals = [] })
    ++ (record { file = file; signals = sigterm ∷ [] } ∷ [])

pub foreground_loop-settled :
    (s : Components) (file : ConfigFile) (n : ℕ) (p p' : ParserState)
    → s.parser ≡ true
    → parser_reload_config file p ≡ ret p'
    → parser_reload_config file p' ≡ ret p'
    → foreground_loop s (rounds_until_signal file n) p ≡ ret (some p')
unfolding foreground_loop server_run
foreground_loop-settled s file zero p p' has e same = rw (foreground_loop, server_run, has, e) refl
foreground_loop-settled s file (suc n) p p' has e same =
    rw (foreground_loop, server_run, has, e) (foreground_loop-settled s file n p' p' has same same)

-- What a server with all its components does at its end.
abbrev pub all_stopped : List Action
all_stopped =
    free plugin
    ∷ free session_manager
    ∷ stop scheduler
    ∷ free scheduler
    ∷ free sock
    ∷ stop circle_buffer
    ∷ free circle_buffer
    ∷ free parser
    ∷ log_shutdown
    ∷ free_server
    ∷ log_flush
    ∷ []

run_foreground-all_well :
    (o : Outcomes) (s : Components) (rounds : List Round) (p p' : ParserState)
    → all_well o ≡ true
    → foreground_loop all_components rounds p ≡ ret (some p')
    → run_foreground true true o s rounds p ≡ ret (some (pos 0, p', all_stopped))
unfolding run_foreground server_stop rollback
run_foreground-all_well o s rounds p p' well e = elim (server_start_lem o s) [
  | inl (all, started) ↦ rw (run_foreground, started, e) (rw started refl)
  | inr (ill, actions, failed) ↦ absurd (cc (sym well ∙ ill))
]

-- A foreground server whose start went well, and whose file then holds another configuration in range
-- with a new checksum that is not 0, printed with two URIs of at most 63 plain bytes: whatever number of
-- rounds passes before SIGTERM, the server runs up to it with that configuration in force from the
-- first of them on, then stops and frees every component in the reverse order of their creation, the
-- log last, and returns 0.
pub run_foreground_lem :
    (o : Outcomes) (s : Components) (c : CfgServerServer) (accept dispatch : List ℕ)
    (pieces : List (List ℕ)) (n : ℕ) (p : ParserState)
    → all_well o ≡ true
    → InRange c
    → IsUri accept
    → IsUri dispatch
    → concat pieces ≡ config_text c accept dispatch
    → crc32_file p.crc_table (some pieces) ≢ 0
    → crc32_file p.crc_table (some pieces) ≢ p.last_crc
    → run_foreground true true o s (rounds_until_signal (record { content = some pieces }) n) p
      ≡ ret (
          some (
            pos 0,
            record {
              last_crc = crc32_file p.crc_table (some pieces);
              crc_table = p.crc_table;
              config = with_uris c p.config accept dispatch;
              has_cfg = true;
              has_file = true;
              current_setting = config_none;
            },
            all_stopped,
          ))
run_foreground_lem o s c accept dispatch pieces n p well r a d text some_crc new =
    let file : ConfigFile = record { content = some pieces } in
    let once =
      parser_reload_config-config_text c accept dispatch pieces p r a d text some_crc new in
    let again =
      ap (λ q. q >>= parser_reload_config file) (sym once) ∙ (reload_settled file p).0 ∙ once in
    run_foreground-all_well o s _ p _ well
      (foreground_loop-settled all_components file n p _ refl once again)

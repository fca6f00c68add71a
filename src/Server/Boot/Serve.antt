-- ===== src/Server/Boot/Serve.antt =====
-- src/main.c over the components: the foreground server from the text of its configuration to a signal
-- and the stop.
use dmmr_orbit.Base.{ℕ, none, some, Option, List, [], ◌∷◌, ◌++◌, Run, ret, ◌>>=◌}
use dmmr_orbit.Base.Int.{ℤ, pos}
use dmmr_orbit.Node.{Node}
use dmmr_orbit.Parser.Reload.{ConfigFile}
use dmmr_orbit.Plugin.{SessionManager}
use dmmr_orbit.Scheduler.Life.{sched_stop}
use dmmr_orbit.Base.Codes.{codes}
use dmmr_orbit.CircleBuffer
use dmmr_orbit.CircleBuffer.{CircleBuffer}
use dmmr_orbit.Exception.{LogCall, text}
use dmmr_orbit.Server.{Action, free_server, log_flush, server_stop, foreground_loop, Round}
use dmmr_orbit.Server.Boot.{pushed, shut_down, flushed, Memory, Statics, boot, undo}

abbrev rb_log_level_info : ℕ
rb_log_level_info = 0x08

-- What `run_foreground` logs behind the start.
abbrev pub in_foreground : LogCall
in_foreground = record {
  level = rb_log_level_info;
  message = text (codes "[INFO] Servidor rodando em foreground. Pressione Ctrl+C para sair...");
}

-- `run_foreground` behind the creation of the server, over the components; `none` is a server that
-- still runs behind the rounds.
unfoldable pub serve :
    {W : Type 0}
    → SessionManager W
    → Memory
    → ConfigFile
    → List Round
    → Statics W
    → Run (Option (ℤ × Statics W × List Action))
unfolding boot foreground_loop server_stop
serve sm a file rounds s = boot sm a file s >>= λ (status, s', started).
    foreground_loop s'.pointers rounds s'.parser_state >>= λ ended. elim ended [
      | none ↦ ret none
      | some p ↦
          let actions = (server_stop s'.pointers).1 in
          undo a.join actions (record s' { parser_state = p; log = pushed in_foreground ∷ s'.log })
          >>= λ stopped. ret (
              some (
                pos 0,
                record stopped { log = flushed ∷ stopped.log },
                started ++ (actions ++ (free_server ∷ log_flush ∷ [])),
              ))
    ]

-- The components behind the stop, with the uses of the log since the start.
abbrev pub all_ended : {W : Type 0} → Statics W → Statics W
all_ended s = record s {
  scheduling = sched_stop s.scheduling;
  buffer = none;
  log = flushed ∷ shut_down ∷ pushed in_foreground ∷ s.log;
}

-- ===== src/Server/Boot.antt =====
-- src/server/dmmr_server.c over the components that it starts: what `server_start` makes of their
-- states.
-- `Memory` says which allocations succeed and what they give, and what the creation of the
-- scheduler's thread returns. The plugin's load works on a state `W` through the session manager. What
-- the calls do with the log is kept as their order; Log has what becomes of the lines.
pub mod Enough
pub mod Config
pub mod Serve
mod Tests
use dmmr_orbit.Base.{
  ℕ, if◌then◌else◌, not, Bool, true, false, Option, none, some, List, [], ◌∷◌, Run, ret, ◌>>=◌,
}
use dmmr_orbit.Base.Int.{ℤ, pos, eof, eqb_ℤ}
use dmmr_orbit.CircleBuffer
use dmmr_orbit.CircleBuffer.{CircleBuffer, new_circle_buffer}
use dmmr_orbit.Exception.{
  LogCall, text, log_err, log_info, rb_exc_message, rb_exc_server_init, construct,
}
use dmmr_orbit.Base.Codes.{codes}
use dmmr_orbit.Node.{Node}
use dmmr_orbit.Parser.Reload.{ConfigFile, ParserState, parser_load_config, new_dmmr_parser}
use dmmr_orbit.Plugin.{SessionManager, PluginState, new_dmmr_plugin, dmmr_plugin_load}
use dmmr_orbit.Protocol.{Endpoint}
use dmmr_orbit.Scheduler.{Scheduler, SchedulerConnection, sched_start}
use dmmr_orbit.Scheduler.Life.{new_dmmr_scheduler, sched_stop}
use dmmr_orbit.Server.{
  Components, no_components, Component, scheduler, circle_buffer, Action, stop, free, log_shutdown,
  free_server, log_flush, rollback,
}
use dmmr_orbit.Session.{SessionConnectionPool, Recno}
use dmmr_orbit.SessionManager.{ManagerState, new_session_connection_manager}
use dmmr_orbit.Socket.Dispatch.{SocketState, new_dmmr_socket}

pub record Memory : Type 0 where
  pub parser_made : Bool
  pub circle_buffer_made : Bool
  pub zeroed_slot : Option Node
  pub sock_made : Bool
  pub cap_made : Bool
  pub nbuff_made : Bool
  pub zeroed_endpoint : Endpoint
  pub scheduler_made : Bool
  pub scheduler_slots : Option (List SchedulerConnection)
  pub reorder_thread : ℤ
  pub manager_made : Bool
  pub zeroed_pool : SessionConnectionPool
  pub plugin_made : Bool
  -- What the join of the circle buffer's thread does, which was started detached.
  pub join : Run (Unit {0})

-- A use of the log: `rb_log_init` with its level, `rb_log_push`, `rb_log_shutdown`, `rb_log_flush`.
pub data LogUse : Type 0 where
  opened : ℕ → LogUse
  pushed : LogCall → LogUse
  shut_down flushed : LogUse

-- Calls in their order, in front of the uses before them, the last first.
abbrev pub push : List LogCall → List LogUse → List LogUse
push [] uses = uses
push (c ∷ cs) uses = push cs (pushed c ∷ uses)

abbrev log_crit : ℕ
log_crit = 2

-- What `server_start` logs before a throw, with the macro's own call.
abbrev pub server_failed : List ℕ → List LogCall
server_failed message =
    record { level = log_err; message = text message }
    ∷ record { level = log_err; message = rb_exc_message rb_exc_server_init }
    ∷ []

abbrev pub server_started : LogCall
server_started = record { level = log_info; message = text (codes "Servidor iniciado com sucesso") }

-- The static data of the components, and the pointers of the server.
pub record Statics (W : Type 0) : Type 0 where
  pub pointers : Components
  pub parser_state : ParserState
  pub log : List LogUse
  pub buffer : Option CircleBuffer
  pub sockets : SocketState
  pub scheduling : Scheduler
  pub manager : ManagerState
  pub recno : Recno
  pub plugin_state : PluginState
  pub rest : W

-- The end of the RB_TRY block, or a throw: false.
abbrev pub Booting : Type 0 → Type 0
Booting W = Run (Bool × Statics W)

-- A throw of the block.
abbrev pub throws : {W : Type 0} → List ℕ → Statics W → Booting W
throws message s = ret (false, record s { log = push (server_failed message) s.log })

module _ {W : Type 0} (sm : SessionManager W) where
  abbrev pub boot_plugin : Memory → Statics W → Booting W
  boot_plugin a s =
      let (made, p) = new_dmmr_plugin true true a.plugin_made s.plugin_state in
      let s' = record s { pointers = record s.pointers { plugin = made }; plugin_state = p } in
      if not made
      then throws (codes "Falha ao carregar plugin") s'
      else (dmmr_plugin_load sm p s.rest >>= λ rest.
          ret (true, record s' { rest = rest; log = pushed server_started ∷ s.log }))

  -- With its three components there, only the allocation of the manager decides on what is logged.
  abbrev pub boot_manager : Memory → Statics W → Booting W
  boot_manager a s =
      new_session_connection_manager a.zeroed_pool true true true a.manager_made s.manager s.recno
      >>= λ (made, m, recs).
          let s' = record s {
            pointers = record s.pointers { session_manager = made };
            manager = m;
            recno = recs;
            log =
                push (construct true a.manager_made (codes "Gerenciador de sessões criado")).1
                  s.log;
          } in
          if not made
          then throws (codes "Falha ao criar gerenciador de sessões") s'
          else boot_plugin a s'

  abbrev pub boot_scheduler : Memory → Statics W → Booting W
  boot_scheduler a s =
      let (made, logs) = new_dmmr_scheduler true a.scheduler_made in
      let s' = record s {
        pointers = record s.pointers { scheduler = made };
        log = push logs s.log;
      } in
      let (status, started) = sched_start a.scheduler_slots a.reorder_thread s.scheduling in
      let s'' = record s' { scheduling = started } in
      if not made
      then throws (codes "Falha ao criar scheduler") s'
      else if not (eqb_ℤ status (pos 0))
      then throws (codes "Falha ao iniciar scheduler") s''
      else boot_manager a s''

  abbrev pub boot_sock : Memory → Statics W → Booting W
  boot_sock a s =
      let (made, k) =
        new_dmmr_socket a.sock_made a.cap_made a.nbuff_made a.zeroed_endpoint s.sockets in
      let s' = record s { pointers = record s.pointers { sock = made }; sockets = k } in
      if not made then throws (codes "Falha ao criar socket") s' else boot_scheduler a s'

  abbrev pub boot_buffer : Memory → Statics W → Booting W
  boot_buffer a s =
      let (made, logs) = new_circle_buffer true a.circle_buffer_made in
      let s' = record s {
        pointers = record s.pointers { circle_buffer = made };
        log = push logs s.log;
      } in
      if not made
      then throws (codes "Falha ao criar circle buffer") s'
      else (CircleBuffer.start s.parser_state.config.circle_buffer_size a.zeroed_slot
          >>= λ (status, b).
              if not (eqb_ℤ status (pos 0))
              then throws (codes "Falha ao iniciar circle buffer") (record s' { buffer = b })
              else boot_sock a (record s' { buffer = b }))

  -- The RB_TRY block from its start on.
  unfoldable pub boot_parser : Memory → ConfigFile → Statics W → Booting W
  unfolding new_dmmr_parser parser_load_config new_circle_buffer CircleBuffer.start construct
      new_dmmr_socket new_dmmr_scheduler sched_start new_session_connection_manager new_dmmr_plugin
      dmmr_plugin_load
  boot_parser a file s =
      let (made, logs) = new_dmmr_parser true a.parser_made in
      let s' = record s { pointers = record s.pointers { parser = made }; log = push logs s.log } in
      if not made
      then throws (codes "Falha ao criar parser") s'
      else (parser_load_config file s.parser_state >>= λ (status, p).
          let s'' = record s' { parser_state = p } in
          if not (eqb_ℤ status (pos 0))
          then throws (codes "Falha ao carregar parser") s''
          else boot_buffer a (record s'' { log = opened p.config.log_level ∷ s''.log }))

-- What the actions do to the components; one that is freed is only its pointer here.
abbrev pub undo : {W : Type 0} → Run (Unit {0}) → List Action → Statics W → Run (Statics W)
undo join [] s = ret s
undo join (stop scheduler ∷ rest) s =
    undo join rest (record s { scheduling = sched_stop s.scheduling })
undo join (stop circle_buffer ∷ rest) s =
    CircleBuffer.stop join true s.buffer >>= λ b. undo join rest (record s { buffer = b })
undo join (log_shutdown ∷ rest) s = undo join rest (record s { log = shut_down ∷ s.log })
undo join (other ∷ rest) s = undo join rest s

-- The RB_CATCH block, which logs at its end.
abbrev pub end_boot :
    {W : Type 0} → Run (Unit {0}) → Bool × Statics W → Run (ℤ × Statics W × List Action)
end_boot join (true, s) = ret (pos 0, s, [])
end_boot join (false, s) = undo join (rollback s.pointers) s >>= λ s'. ret (
  eof,
  record s' {
    pointers = no_components;
    log =
        pushed
          (record { level = log_crit; message = text (codes "Falha crítica ao iniciar servidor") })
        ∷ s'.log;
  },
  rollback s.pointers,
)

-- `server_start` of a server that is there.
unfoldable pub boot :
    {W : Type 0}
    → SessionManager W
    → Memory
    → ConfigFile
    → Statics W
    → Run (ℤ × Statics W × List Action)
unfolding boot_parser rollback sched_stop CircleBuffer.stop
boot sm a file s = boot_parser sm a file s >>= end_boot a.join

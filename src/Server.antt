-- ===== src/Server.antt =====
-- src/server/dmmr_server.c, with the foreground server of src/main.c: the components that the server
-- creates in order, undoes when one fails, and frees when it stops.
-- A component's pointer is a flag: true where it is not null. What the constructors and `start`
-- functions of the components return is given by `Outcomes`. The jump of RB_THROW to the RB_CATCH
-- block is a value that carries the state.
pub mod Start
pub mod Foreground
pub mod Daemon
pub mod Main
pub mod Detached
pub mod Arguments
pub mod Boot
mod Tests
use dmmr_orbit.Base.{
  ℕ, if◌then◌else◌, ◌&&◌, ◌||◌, ◌==◌, not, Bool, true, false, Option, none, some, List, [], ◌∷◌,
  ◌++◌, Run, ret, fault, ◌>>=◌,
}
use dmmr_orbit.Base.Int.{ℤ, pos, eof, eqb_ℤ}
use dmmr_orbit.Base.Codes.{codes}
use dmmr_orbit.Exception.{LogCall, construct}
use dmmr_orbit.Parser.Reload.{ConfigFile, ParserState, parser_reload_config}

-- The static pointers of the file.
pub record Components : Type 0 where
  pub parser : Bool
  pub circle_buffer : Bool
  pub sock : Bool
  pub scheduler : Bool
  pub session_manager : Bool
  pub plugin : Bool

abbrev pub no_components : Components
no_components = record {
  parser = false;
  circle_buffer = false;
  sock = false;
  scheduler = false;
  session_manager = false;
  plugin = false;
}

-- What the calls of one start return: a pointer that is not null, or a result of 0, is true.
pub record Outcomes : Type 0 where
  pub parser_created : Bool
  pub parser_loaded : Bool
  pub circle_buffer_created : Bool
  pub circle_buffer_started : Bool
  pub sock_created : Bool
  pub scheduler_created : Bool
  pub scheduler_started : Bool
  pub session_manager_created : Bool
  pub plugin_created : Bool

pub data Component : Type 0 where
  parser circle_buffer sock scheduler session_manager plugin : Component

pub data Action : Type 0 where
  stop : Component → Action
  free : Component → Action
  log_shutdown free_server log_flush : Action

-- The RB_TRY block: the state at its end, or at the throw.
pub data Attempt : Type 0 where
  completed : Components → Attempt
  thrown : Components → Attempt

-- The block is cut in three at the comments of the source.
abbrev pub try_services : Outcomes → Components → Attempt
try_services o s =
    let s5 = record s { scheduler = o.scheduler_created } in
    let s6 = record s5 { session_manager = o.session_manager_created } in
    let s7 = record s6 { plugin = o.plugin_created } in
    if not o.scheduler_created
    then thrown s5
    else if not o.scheduler_started
    then thrown s5
    else if not o.session_manager_created
    then thrown s6
    else if not o.plugin_created
    then thrown s7
    else completed s7

abbrev pub try_buffer : Outcomes → Components → Attempt
try_buffer o s =
    let s3 = record s { circle_buffer = o.circle_buffer_created } in
    let s4 = record s3 { sock = o.sock_created } in
    if not o.circle_buffer_created
    then thrown s3
    else if not o.circle_buffer_started
    then thrown s3
    else if not o.sock_created
    then thrown s4
    else try_services o s4

unfoldable pub try_start : Outcomes → Components → Attempt
try_start o s =
    let s1 = record s { parser = o.parser_created } in
    if not o.parser_created
    then thrown s1
    else if not o.parser_loaded
    then thrown s1
    else try_buffer o s1

abbrev pub when {ℓ} : {A : Type ℓ} → Bool → List A → List A
when c as' = if c then as' else []

-- The RB_CATCH block, which also clears the pointers.
unfoldable pub rollback : Components → List Action
rollback s =
    when s.plugin (free plugin ∷ [])
    ++ (when s.session_manager (free session_manager ∷ [])
        ++ (when s.scheduler (stop scheduler ∷ free scheduler ∷ [])
            ++ (when s.sock (free sock ∷ [])
                ++ (when s.circle_buffer (stop circle_buffer ∷ free circle_buffer ∷ [])
                    ++ when s.parser (free parser ∷ [])))))

-- `has_this` says whether a server was created.
unfoldable pub server_start : Bool → Outcomes → Components → ℤ × Components × List Action
unfolding try_start rollback
server_start has_this o s =
    if has_this
    then elim (try_start o s) [
      | completed s' ↦ (pos 0, s', [])
      | thrown s' ↦ (eof, no_components, rollback s')
    ]
    else (eof, s, [])

abbrev pub sigusr1 : ℕ
sigusr1 = 10

-- `handle_signal` of dmmr_server.c, which nothing installs, on its two flags.
unfoldable pub note_signal : ℕ → Bool × Bool → Bool × Bool
note_signal sig (run, reload) =
    if sig == sigusr1
    then (run, true)
    else if (sig == 2) || (sig == 15)
    then (false, false)
    else (run, reload)

-- `server_stop` leaves the pointers as they are.
unfoldable pub server_stop : Components → Components × List Action
unfolding rollback
server_stop s = (s, rollback s ++ (log_shutdown ∷ []))

-- `server_proc` calls the parser's reload through its pointer. Without a server the function has no
-- value. `file` is the configuration's file as the call finds it.
unfoldable pub server_run : Bool → Components → ConfigFile → ParserState → Run (ℤ × ParserState)
server_run has_this s file p =
    if has_this
    then (if s.parser then (parser_reload_config file p >>= λ p'. ret (pos 0, p')) else fault)
    else fault

-- `new_dmmr_server`: whether it returns a server, and what it logs.
unfoldable pub new_dmmr_server : Bool → Bool → Bool × List LogCall
unfolding construct
new_dmmr_server has_cfg allocated = construct has_cfg allocated (codes "Servidor DMMR criado")

abbrev pub sigint : ℕ
sigint = 2

abbrev pub sigterm : ℕ
sigterm = 15

-- `handle_signal`: `run` after a signal.
abbrev pub handle_signal : ℕ → Bool → Bool
handle_signal signo run = if (signo == sigint) || (signo == sigterm) then false else run

abbrev pub handle_signals : List ℕ → Bool → Bool
handle_signals [] run = run
handle_signals (signo ∷ rest) run = handle_signals rest (handle_signal signo run)

-- A round of the loop in `run_foreground`: the file, and the signals that come until its end.
pub record Round : Type 0 where
  pub file : ConfigFile
  pub signals : List ℕ

-- The `do … while (run)` of `run_foreground`; `none` is a server that still runs behind the rounds.
unfoldable pub foreground_loop : Components → List Round → ParserState → Run (Option ParserState)
unfolding server_run
foreground_loop s [] p = ret none
foreground_loop s (r ∷ rounds) p = server_run true s r.file p >>= λ (status, p').
    let rest = foreground_loop s rounds p' in
    if not (eqb_ℤ status (pos 0))
    then ret (some p')
    else if handle_signals r.signals true
    then rest
    else ret (some p')

-- `run_foreground` of main.c: `handled` says whether both handlers could be set, `created` whether
-- there is a server. What `server->start` returns is not looked at. The rounds begin with the first
-- one.
unfoldable pub run_foreground :
    Bool
    → Bool
    → Outcomes
    → Components
    → List Round
    → ParserState
    → Run (Option (ℤ × ParserState × List Action))
unfolding foreground_loop server_start server_stop
run_foreground handled created o s rounds p =
    if not handled
    then ret (some (eof, p, []))
    else if not created
    then ret (some (eof, p, []))
    else (let (status, s', started) = server_start true o s in
        foreground_loop s' rounds p >>= λ ended. elim ended [
          | none ↦ ret none
          | some p' ↦
              ret (
                some (pos 0, p', started ++ ((server_stop s').1 ++ (free_server ∷ log_flush ∷ []))))
        ])

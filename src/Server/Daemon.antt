-- ===== src/Server/Daemon.antt =====
-- src/daemon/dmmr_daemon.c: the process leaves its terminal, creates the server and runs it.
-- What the system calls answer is given by `Answers`.
use dmmr_orbit.Base.{
  ℕ, ltb, if◌then◌else◌, ◌&&◌, not, Bool, true, false, Option, none, some, List, [], ◌∷◌, ◌++◌, Run,
  ret,
}
use dmmr_orbit.Base.Codes.{codes}
use dmmr_orbit.Base.Int.{ℤ, pos, eof}
use dmmr_orbit.Exception.{
  Message, text, LogCall, log_err, log_info, rb_exc_server_init, rb_exc_message, Tried, completed,
  thrown, rb_throw_errno, construct,
}
use dmmr_orbit.Parser.Reload.{ConfigFile, ParserState}
use dmmr_orbit.Server.{Action, Components, server_stop, server_run, new_dmmr_server}

-- Where `fork` returns, or that it failed.
pub data Fork : Type 0 where
  child parent failed : Fork

-- `null_device` is the descriptor of /dev/null, if it could be opened; `error_text` is found for
-- `errno`; the last two say whether the allocations succeed.
pub record Answers : Type 0 where
  pub first_fork : Fork
  pub has_session : Bool
  pub second_fork : Fork
  pub null_device : Option ℕ
  pub error_text : Message
  pub daemon_allocated : Bool
  pub server_allocated : Bool

pub data SystemCall : Type 0 where
  umask : ℕ → SystemCall
  chdir : List ℕ → SystemCall
  close : ℕ → SystemCall
  -- `open("/dev/null", O_RDWR)` with the descriptor that it returns.
  open_null : ℕ → SystemCall
  dup2 : ℕ → ℕ → SystemCall

-- A process that calls `exit` in between, with its status.
pub data Process {ℓ} (A : Type ℓ) : Type ℓ where
  exited : ℕ → Process A
  continues : A → Process A

abbrev pub standard_to : Option ℕ → List SystemCall
standard_to none = []
standard_to (some fd) =
    open_null fd ∷ dup2 fd 0 ∷ dup2 fd 1 ∷ dup2 fd 2 ∷ (if ltb 2 fd then close fd ∷ [] else [])

-- The second child's case, up to its `break`.
abbrev pub detach : Option ℕ → List SystemCall
detach null_device =
    umask 0 ∷ chdir (codes "/") ∷ close 0 ∷ close 1 ∷ close 2 ∷ standard_to null_device

abbrev pub fork_again : Answers → Fork → Process (Tried (List SystemCall))
fork_again a child = continues (completed (detach a.null_device) [])
fork_again a parent = exited 0
fork_again a failed = continues (rb_throw_errno a.error_text)

abbrev pub fork_once : Answers → Fork → Process (Tried (List SystemCall))
fork_once a child =
    if not a.has_session
    then continues (rb_throw_errno a.error_text)
    else fork_again a a.second_fork
fork_once a parent = exited 0
fork_once a failed = continues (rb_throw_errno a.error_text)

unfoldable pub daemonize : Answers → Process (Tried (List SystemCall))
daemonize a = fork_once a a.first_fork

-- The end of `daemon_start`: its result, whether `srv` is a server, the system calls of `daemonize`
-- and what was logged.
pub record Started : Type 0 where
  pub status : ℤ
  pub srv : Bool
  pub calls : List SystemCall
  pub logs : List LogCall

-- The RB_CATCH block prints to the error stream and returns 0 too.
abbrev pub create_server : Answers → Tried (List SystemCall) → Started
create_server a (thrown code logs) = record { status = pos 0; srv = false; calls = []; logs = logs }
create_server a (completed calls logs) =
    let (made, created) = new_dmmr_server true a.server_allocated in
    record {
      status = pos 0;
      srv = made;
      calls = calls;
      logs =
          logs
          ++ (created
              ++ (if made
                  then record { level = log_info; message = text (codes "DMMR orbiting.") } ∷ []
                  else record { level = log_err; message = rb_exc_message rb_exc_server_init }
                    ∷ []));
    }

abbrev pub start_detached : Answers → Process (Tried (List SystemCall)) → Process Started
start_detached a (exited n) = exited n
start_detached a (continues detached) = continues (create_server a detached)

unfoldable pub daemon_start : Bool → Answers → Process Started
unfolding daemonize new_dmmr_server
daemon_start has_this a =
    if has_this
    then start_detached a (daemonize a)
    else continues (record { status = eof; srv = false; calls = []; logs = [] })

-- `daemon_run`, which does not start the server first.
unfoldable pub daemon_run :
    Bool → Bool → Components → ConfigFile → ParserState → Run (ℤ × ParserState)
unfolding server_run
daemon_run has_this has_srv s file p =
    if has_this && has_srv then server_run has_srv s file p else ret (eof, p)

unfoldable pub new_dmmr_daemon : Bool → Bool → Bool × List LogCall
unfolding construct
new_dmmr_daemon has_cfg allocated = construct has_cfg allocated (codes "Daemon configurado")

-- `free_dmmr_daemon`: what the server's stop does, and whether the daemon is freed.
unfoldable pub free_dmmr_daemon : Bool → Bool → Components → List Action × Bool
unfolding server_stop
free_dmmr_daemon has_this has_srv s =
    if has_this then ((if has_srv then (server_stop s).1 else []), true) else ([], false)

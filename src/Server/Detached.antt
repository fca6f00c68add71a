-- ===== src/Server/Detached.antt =====
-- src/daemon/dmmr_daemon.c with src/main.c: how the daemon ends, and what its standard descriptors
-- are.
use dmmr_orbit.Base.{
  ℕ, ◌<◌, ltb, ◌==◌, if◌then◌else◌, ◌&&◌, ◌||◌, not, Bool, Bool-cases, true, false, Option, some,
  List, [], ◌∷◌, Run, ret, fault, ◌≡◌, refl, inl, inr, arith,
}
use dmmr_orbit.Base.Int.{ℤ, eof}
use dmmr_orbit.Exception.{Message}
use dmmr_orbit.Parser.Reload.{ConfigFile, ParserState}
use dmmr_orbit.Server.Daemon.{
  Answers, Fork, child, parent, failed, Process, exited, continues, SystemCall, umask, chdir, close,
  open_null, dup2, detach,
}
use dmmr_orbit.Server.Main.{run_daemon, exit_failure}

abbrev is_child : Fork → Bool
is_child child = true
is_child parent = false
is_child failed = false

abbrev is_parent : Fork → Bool
is_parent child = false
is_parent parent = true
is_parent failed = false

-- The process is one of those that `fork` leaves behind.
abbrev pub is_left : Answers → Bool
is_left a =
    is_parent a.first_fork || (is_child a.first_fork && (a.has_session && is_parent a.second_fork))

-- The process is the second child.
abbrev pub is_detached : Answers → Bool
is_detached a = is_child a.first_fork && (a.has_session && is_child a.second_fork)

abbrev daemon_ending : Answers → Run (Process ℤ)
daemon_ending a =
    if not a.daemon_allocated
    then ret (exited exit_failure)
    else if is_left a
    then ret (exited 0)
    else if is_detached a && a.server_allocated
    then fault
    else ret (continues eof)

run_daemon_cases :
    (first second : Fork) (has_session daemon_allocated server_allocated : Bool)
    (null_device : Option ℕ) (error_text : Message) (config : ConfigFile) (p : ParserState)
    → let a : Answers = record {
      first_fork = first;
      has_session = has_session;
      second_fork = second;
      null_device = null_device;
      error_text = error_text;
      daemon_allocated = daemon_allocated;
      server_allocated = server_allocated;
    } in
      run_daemon a config p ≡ daemon_ending a
unfolding run_daemon
run_daemon_cases first second has_session false server_allocated null message config p = refl
run_daemon_cases parent second has_session true server_allocated null message config p = refl
run_daemon_cases failed second has_session true server_allocated null message config p = refl
run_daemon_cases child second false true server_allocated null message config p = refl
run_daemon_cases child parent true true server_allocated null message config p = refl
run_daemon_cases child failed true true server_allocated null message config p = refl
run_daemon_cases child child true true false null message config p = refl
run_daemon_cases child child true true true null message config p = refl

-- The daemon's branch of `main` never runs a server: it fails when the daemon cannot be allocated,
-- exits with 0 in the processes that `fork` leaves behind, runs into the server's null parser in the
-- second child once the server is created, and otherwise, a throw of `daemonize` or a server that
-- cannot be created, returns -1.
pub run_daemon_lem :
    (a : Answers) (config : ConfigFile) (p : ParserState)
    → run_daemon a config p ≡ (
        if not a.daemon_allocated
        then ret (exited exit_failure)
        else if is_left a
        then ret (exited 0)
        else if is_detached a && a.server_allocated
        then fault
        else ret (continues eof))
run_daemon_lem a config p =
    run_daemon_cases a.first_fork a.second_fork a.has_session a.daemon_allocated a.server_allocated
      a.null_device a.error_text config p

-- A descriptor of a process: closed, /dev/null, or another file by its number.
pub data Descriptor : Type 0 where
  closed null_file : Descriptor
  other_file : ℕ → Descriptor

abbrev pub put : ℕ → Descriptor → (ℕ → Descriptor) → ℕ → Descriptor
put fd d table i = if i == fd then d else table i

-- What the system calls do to the table of descriptors.
abbrev pub call : SystemCall → (ℕ → Descriptor) → ℕ → Descriptor
call (umask n) table = table
call (chdir path) table = table
call (close fd) table = put fd closed table
call (open_null fd) table = put fd null_file table
call (dup2 old new) table = put new (table old) table

abbrev pub calls : List SystemCall → (ℕ → Descriptor) → ℕ → Descriptor
calls [] table = table
calls (c ∷ cs) table = calls cs (call c table)

-- Where /dev/null is opened on a descriptor that is closed once the standard ones are, the calls of
-- `detach` leave the three standard descriptors on it, whatever they were, and every other as it was.
pub detach_lem :
    (fd : ℕ) (table : ℕ → Descriptor) (i : ℕ)
    → (2 < fd → table fd ≡ closed)
    → calls (detach (some fd)) table i ≡ (if ltb i 3 then null_file else table i)
detach_lem fd table i free = elim (Bool-cases (ltb 2 fd)) [
  | inl above ↦ elim (Bool-cases (i == fd)) [
    | inl same ↦ rw above (ground (arith, same, above, free))
    | inr other ↦ rw above (ground (arith, other, above))
  ]
  | inr below ↦ rw below (ground (arith, below))
]

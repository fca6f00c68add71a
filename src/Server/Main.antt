-- ===== src/Server/Main.antt =====
-- src/main.c: the arguments, and the choice between the foreground server and the daemon.
-- `getopt` and `stat` are not of the repository: the options that one finds are a list, and what the
-- other says of a path is a function of the bytes of `cfg_file`.
use dmmr_orbit.Base.{
  ℕ, ◌-◌, ◌^◌, ◌%◌, ◌==◌, if◌then◌else◌, not, Bool, Option, none, some, List, [], ◌∷◌, ◌++◌,
  replicate, true, Run, ret, ◌>>=◌,
}
use dmmr_orbit.Base.Int.{ℤ, pos, eqb_ℤ}
use dmmr_orbit.Parser.Reload.{ConfigFile, ParserState}
use dmmr_orbit.Parser.{over}
use dmmr_orbit.Parser.Uri.{atoi_port}
use dmmr_orbit.Server.{Outcomes, Action, Round, no_components, run_foreground, new_dmmr_server}
use dmmr_orbit.Server.Daemon.{
  Answers, Process, exited, continues, daemon_start, daemon_run, new_dmmr_daemon,
}
use dmmr_orbit.Text.{strlcpy}

-- `struct cfg_daemon_server` of src/include/structs.h.
pub record CfgDaemonServer : Type 0 where
  pub cfg_file : List ℕ
  pub as_daemon : ℕ

-- The configuration after `__mset`.
abbrev pub zeroed : CfgDaemonServer
zeroed = record { cfg_file = replicate 0x400 0; as_daemon = 0 }

-- What `getopt` finds, with its argument; `other` is a letter or an argument that it refuses.
pub data Opt : Type 0 where
  file daemon : List ℕ → Opt
  other : Opt

abbrev pub exit_failure : ℕ
exit_failure = 1

-- `atoi(optarg) & 0xFF` keeps the lower byte of the number.
unfoldable pub process_args :
    (List ℕ → Bool) → List Opt → CfgDaemonServer → Run (Process CfgDaemonServer)
process_args found [] cfg = ret (continues cfg)
process_args found (file optarg ∷ opts) cfg =
    strlcpy (optarg ++ (0 ∷ [])) (0x400 - 1) >>= λ (written, size).
    let cfg' = record cfg { cfg_file = over written cfg.cfg_file } in
    let rest = process_args found opts cfg' in
    if not (found cfg'.cfg_file) then ret (exited exit_failure) else rest
process_args found (daemon optarg ∷ opts) cfg =
    atoi_port optarg >>= λ n. process_args found opts (record cfg { as_daemon = n % 2 ^ 8 })
process_args found (other ∷ opts) cfg = ret (exited exit_failure)

-- The daemon's branch: the result of `main`, or the status of its `exit`.
unfoldable pub run_daemon : Answers → ConfigFile → ParserState → Run (Process ℤ)
unfolding daemon_start daemon_run new_dmmr_daemon
run_daemon a config p =
    if not (new_dmmr_daemon true a.daemon_allocated).0
    then ret (exited exit_failure)
    else elim (daemon_start true a) [
      | exited n ↦ ret (exited n)
      | continues started ↦
          if not (eqb_ℤ started.status (pos 0))
          then ret (exited exit_failure)
          else (daemon_run true started.srv no_components config p >>= λ (status, p').
              ret (continues status))
    ]

-- What `run_foreground` returns; `none` is a server that still runs behind the rounds.
abbrev pub result_of : Option (ℤ × ParserState × List Action) → Option (Process ℤ)
result_of none = none
result_of (some (status, p, actions)) = some (continues status)

-- `main`. The daemon's server runs once, with the first round's file as it is then.
unfoldable pub main :
    (List ℕ → Bool)
    → List Opt
    → Answers
    → Bool
    → Outcomes
    → ConfigFile
    → List Round
    → ParserState
    → Run (Option (Process ℤ))
unfolding process_args run_daemon run_foreground new_dmmr_server
main found opts a handled o config rounds p = process_args found opts zeroed >>= λ parsed.
    elim parsed [
      | exited n ↦ ret (some (exited n))
      | continues cfg ↦
          if cfg.as_daemon == 0
          then (run_foreground handled (new_dmmr_server true a.server_allocated).0 o no_components
                rounds p
              >>= λ ended. ret (result_of ended))
          else (run_daemon a config p >>= λ ended. ret (some ended))
    ]

-- ===== src/Server/Arguments.antt =====
-- src/main.c: the options of the command line, and the mode that they choose.
use dmmr_orbit.Base.{
  ℕ, ◌<◌, ◌-◌, ◌^◌, ◌%◌, ◌==◌, Bool, Bool-cases, true, some, List, [], ◌∷◌, ◌++◌, take, ret, ◌>>=◌,
  ◌≡◌, ◌≢◌, ◌⊎◌, refl, inl, inr, arith,
}
use dmmr_orbit.Parser.{over}
use dmmr_orbit.Parser.Numbers.{digits}
use dmmr_orbit.Parser.Reload.{ConfigFile, ParserState}
use dmmr_orbit.Parser.Uri.RoundTrip.{atoi_port-digits}
use dmmr_orbit.Server.{Outcomes, Round, no_components, run_foreground, new_dmmr_server}
use dmmr_orbit.Server.Daemon.{Answers, continues}
use dmmr_orbit.Server.Main.{file, daemon, zeroed, main, process_args, result_of, run_daemon}
use dmmr_orbit.Text.Copy.{IsText, strlcpy_lem}

-- The bytes of `cfg_file` behind the option -f.
abbrev pub stored : List ℕ → List ℕ
stored name = over (take (0x400 - 2) name ++ (0 ∷ [])) zeroed.cfg_file

process_args-both :
    (found : List ℕ → Bool) (name : List ℕ) (n : ℕ)
    → IsText name
    → n < 2 ^ 16
    → found (stored name) ≡ true
    → process_args found (file name ∷ daemon (digits n n) ∷ []) zeroed
      ≡ ret (continues (record { cfg_file = stored name; as_daemon = n % 2 ^ 8 }))
unfolding process_args
process_args-both found name n t h e =
    rw (process_args, (strlcpy_lem name 0x3fe t).1, e, atoi_port-digits n h) refl

-- With a file that is found and a number for the option -d, the lowest byte of the number alone says
-- whether the server runs in the foreground: 256 does what 0 does, and any other number that is no
-- multiple of 256 starts the daemon.
pub main_lem :
    (found : List ℕ → Bool) (name : List ℕ) (n : ℕ) (a : Answers) (handled : Bool) (o : Outcomes)
    (config : ConfigFile) (rounds : List Round) (p : ParserState)
    → IsText name
    → n < 2 ^ 16
    → found (stored name) ≡ true
    → (n % 2 ^ 8 ≡ 0
        × (main found (file name ∷ daemon (digits n n) ∷ []) a handled o config rounds p ≡ (
            run_foreground handled
              (new_dmmr_server true a.server_allocated).0
              o
              no_components
              rounds
              p
            >>= λ ended. ret (result_of ended))))
      ⊎ (n % 2 ^ 8 ≢ 0
          × (main found (file name ∷ daemon (digits n n) ∷ []) a handled o config rounds p
              ≡ (run_daemon a config p >>= λ ended. ret (some ended))))
unfolding main
main_lem found name n a handled o config rounds p t h e =
    let parsed = process_args-both found name n t h e in
    elim (Bool-cases ((n % 2 ^ 8) == 0)) [
      | inl zero_byte ↦ inl (ground (arith, zero_byte), rw (main, parsed, zero_byte) refl)
      | inr byte ↦ inr (ground (arith, byte), rw (main, parsed, byte) refl)
    ]

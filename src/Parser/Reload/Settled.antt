-- ===== src/Parser/Reload/Settled.antt =====
-- src/parser/dmmr_parser.c: a file that stays as it is is not read again.
use dmmr_orbit.Base.{
  ◌==◌, ◌&&◌, not, Bool-cases, Option-cases, true, false, some, Run, ret, fault, hang, ◌>>=◌, OnRet,
  OnRet-bind, OnRet-any, ◌≡◌, refl, sym, ap, ◌∙◌, ◌⊎◌, inl, inr, arith,
}
use dmmr_orbit.Base.Int.{ℤ, pos, eqb_ℤ}
use dmmr_orbit.Checksum.{crc32_file}
use dmmr_orbit.Parser.{ConsoleState, console_run}
use dmmr_orbit.Parser.Reload.{
  file_tokens, ConfigFile, ParserState, console_setup, run_console, console_cleanup, remember_crc,
  run_after_setup, parser_load_config, run_again, parser_reload_config, reload_loaded,
}

-- The checksum kept is the one that the file has by the table in use.
abbrev IsCurrent : ConfigFile → ParserState → Type 0
IsCurrent file s = s.last_crc ≡ crc32_file s.crc_table file.content

reload-current :
    (file : ConfigFile) (s : ParserState) → IsCurrent file s → parser_reload_config file s ≡ ret s
unfolding parser_reload_config
reload-current file s same =
    let equal : (crc32_file s.crc_table file.content == s.last_crc) ≡ true = ground arith in
    elim (Bool-cases (crc32_file s.crc_table file.content == 0)) [
      | inl zero_crc ↦ rw (parser_reload_config, zero_crc) refl
      | inr some_crc ↦ rw (parser_reload_config, some_crc, equal) refl
    ]

-- A step that changes nothing on what a call returns.
bind-settled :
    {A : Type 0} (P : A → Type 0) (r : Run A) (f : A → Run A)
    → OnRet P r
    → ((a : A) → P a → f a ≡ ret a)
    → (r >>= f) ≡ r
bind-settled P (ret a) f p h = h a p
bind-settled P fault f p h = refl
bind-settled P hang f p h = refl

-- The same checksum and table.
abbrev SameCrc : ParserState → ParserState → Type 0
SameCrc s s' = (s'.last_crc ≡ s.last_crc) × (s'.crc_table ≡ s.crc_table)

IsCurrent-SameCrc :
    (file : ConfigFile) (s s' : ParserState) → IsCurrent file s → SameCrc s s' → IsCurrent file s'
IsCurrent-SameCrc file s s' same (crc, table) =
    crc ∙ same ∙ ap (λ t. crc32_file t file.content) (sym table)

abbrev Kept : ParserState → ℤ × ParserState → Type 0
Kept s (status, s') = SameCrc s s'

console_setup-Kept : (file : ConfigFile) (s : ParserState) → Kept s (console_setup file s)
unfolding console_setup
console_setup-Kept file s = elim (Option-cases file.content) [
  | inl missing ↦ rw (console_setup, missing) (refl, refl)
  | inr (pieces, at) ↦ rw (console_setup, at) (refl, refl)
]

run_console-Kept : (file : ConfigFile) (s : ParserState) → OnRet (Kept s) (run_console file s)
unfolding run_console
run_console-Kept file s = elim (Bool-cases (s.has_file && s.has_cfg)) [
  | inr closed ↦ rw (run_console, closed) (refl, refl)
  | inl opened ↦
      let start : ConsoleState = record {
        cfg = some s.config;
        current_setting = s.current_setting;
      } in
      rw (run_console, opened)
        (OnRet-bind (λ (r : ConsoleState). Unit {0}) (Kept s) (console_run (file_tokens file) start)
          _ (OnRet-any (console_run (file_tokens file) start)) (λ r any. (refl, refl)))
]

run_again-IsCurrent :
    (file : ConfigFile) (status : ℤ) (s : ParserState)
    → IsCurrent file s
    → OnRet (IsCurrent file) (run_again file (status, s))
run_again-IsCurrent file status s same = elim (Bool-cases (eqb_ℤ status (pos 0))) [
  | inr failed ↦ rw (run_again, failed) same
  | inl ok ↦
      rw (run_again, ok)
        (OnRet-bind (Kept s) (IsCurrent file) (run_console file s) _ (run_console-Kept file s)
          (λ (status', s') kept. IsCurrent-SameCrc file s s' same kept))
]

reload-reload :
    (file : ConfigFile) (s : ParserState)
    → (parser_reload_config file s >>= parser_reload_config file) ≡ parser_reload_config file s
unfolding parser_reload_config
reload-reload file s =
    let crc = crc32_file s.crc_table file.content in
    let cleaned = console_cleanup (record s { last_crc = crc }) in
    let prepared = console_setup file cleaned in
    elim (Bool-cases (not (crc == 0) && not (crc == s.last_crc))) [
      | inr idle ↦ rw (parser_reload_config, idle) (rw (parser_reload_config, idle) refl)
      | inl changed ↦
          rw (parser_reload_config, changed)
            (bind-settled (IsCurrent file) (run_again file prepared) _
              (run_again-IsCurrent file prepared.0 prepared.1
                (IsCurrent-SameCrc file cleaned prepared.1 refl (console_setup-Kept file cleaned)))
              (reload-current file))
    ]

abbrev IsLoaded : ConfigFile → ℤ × ParserState → Type 0
IsLoaded file (status, s) = IsCurrent file s ⊎ (eqb_ℤ status (pos 0) ≡ false)

remember_crc-IsLoaded :
    (file : ConfigFile) (status : ℤ) (s : ParserState)
    → OnRet (IsLoaded file) (remember_crc file (status, s))
remember_crc-IsLoaded file status s = elim (Bool-cases (eqb_ℤ status (pos 0))) [
  | inl ok ↦ rw (remember_crc, ok) (inl refl)
  | inr failed ↦ rw (remember_crc, failed) (inr refl)
]

run_after_setup-IsLoaded :
    (file : ConfigFile) (status : ℤ) (s : ParserState)
    → OnRet (IsLoaded file) (run_after_setup file (status, s))
run_after_setup-IsLoaded file status s = elim (Bool-cases (eqb_ℤ status (pos 0))) [
  | inr failed ↦ rw (run_after_setup, failed) (inr refl)
  | inl ok ↦
      rw (run_after_setup, ok)
        (OnRet-bind (λ (r : ℤ × ParserState). Unit {0}) (IsLoaded file) (run_console file s) _
          (OnRet-any (run_console file s))
          (λ (status', s') any. remember_crc-IsLoaded file status' s'))
]

reload_loaded-IsLoaded :
    (file : ConfigFile) (r : ℤ × ParserState) → IsLoaded file r → reload_loaded file r ≡ ret r
reload_loaded-IsLoaded file (status, s) (inr failed) = rw (reload_loaded, failed) refl
reload_loaded-IsLoaded file (status, s) (inl same) = elim (Bool-cases (eqb_ℤ status (pos 0))) [
  | inr failed ↦ rw (reload_loaded, failed) refl
  | inl ok ↦ rw (reload_loaded, ok, reload-current file s same) refl
]

-- For every file, state and scanner's tokens: a reload right behind a reload, or behind a load that
-- returned 0, changes nothing while the file stays as it is, whether its reading went well or not.
pub reload_settled :
    (file : ConfigFile) (s : ParserState)
    → ((parser_reload_config file s >>= parser_reload_config file) ≡ parser_reload_config file s)
      × ((parser_load_config file s >>= reload_loaded file) ≡ parser_load_config file s)
unfolding parser_load_config
reload_settled file s =
    let prepared = console_setup file s in
    (
      reload-reload file s,
      bind-settled (IsLoaded file) (parser_load_config file s) _
          (run_after_setup-IsLoaded file prepared.0 prepared.1) (reload_loaded-IsLoaded file),
    )

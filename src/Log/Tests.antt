-- ===== src/Log/Tests.antt =====
-- A log with two lines that wait, and its operations.
use dmmr_orbit.Base.{
  ◌≡◌, ◌⊎◌, refl, arith, if◌then◌else◌, true, false, some, List, [], ◌∷◌, ◌++◌, map, concat, ret,
  replicate, length-replicate, length-set, take, set, ◌∙◌,
}
use dmmr_orbit.Base.Int.{pos, negsuc}
use dmmr_orbit.Base.Sort.{All}
use dmmr_orbit.Log.{
  Line, LogState, to_syslog, log_passes, format_line, rb_log_push, rb_log_shutdown, rb_log_init,
}
use dmmr_orbit.Log.Line.{numeral, format_line_lem}
use dmmr_orbit.Log.Ring.{IsRing, pending, push, rb_log_push_lem}
use dmmr_orbit.Log.Drain.{IsBatch, emptied, ended, rb_log_shutdown_lem}
use dmmr_orbit.Log.Steps.{initial, next, pushed, IsLog, Reach-IsLog}

-- "main" and "up".
abbrev func : Line
func = 109 ∷ 97 ∷ 105 ∷ 110 ∷ []

abbrev msg : Line
msg = 117 ∷ 112 ∷ []

abbrev empty_log : LogState
empty_log = record {
  cfg = some 3;
  queue = replicate 256 [];
  write_pos = 255;
  read_pos = 255;
  run = true;
  syslog_fd = true;
  thread = true;
  out = [];
}

empty_log-IsRing : IsRing empty_log
empty_log-IsRing = (length-replicate {A = Line} 256 [], omega arith, omega arith)

format_line_example :
    format_line msg func (negsuc 11)
    ≡ take 511 (func ++ (32 ∷ 40 ∷ numeral (negsuc 11)) ++ (41 ∷ 32 ∷ msg))
format_line_example = format_line_lem msg func (negsuc 11)

rb_log_push_example :
    IsRing (rb_log_push 2 msg func (pos 7) empty_log)
    × (pending (rb_log_push 2 msg func (pos 7) empty_log) ≡ (
        if log_passes empty_log.cfg 2
        then push (pending empty_log) (format_line msg func (pos 7))
        else pending empty_log))
rb_log_push_example = rb_log_push_lem 2 msg func (pos 7) empty_log empty_log-IsRing

abbrev one_line : LogState
one_line = record empty_log { queue = set (replicate 256 []) 255 msg; write_pos = 0 }

one_line-IsRing : IsRing one_line
one_line-IsRing = (
  length-set (replicate {A = Line} 256 []) 255 msg ∙ length-replicate {A = Line} 256 [],
  omega arith,
  omega arith,
)

rb_log_shutdown_example :
    ((false ≡ false)
      × ((bs : List (List Line)) × (rb_log_shutdown 16 false one_line
            ≡ ret (ended (emptied one_line (map to_syslog bs))))
          × (concat bs ≡ pending one_line)
          × All IsBatch bs))
    ⊎ ((false ≡ true)
        × (rb_log_shutdown 16 false one_line ≡ ret (ended one_line))
        × (pending (ended one_line) ≡ pending one_line))
rb_log_shutdown_example =
    rb_log_shutdown_lem 16 false one_line one_line-IsRing refl refl (omega arith)

abbrev stopped_log : LogState
stopped_log = record empty_log { syslog_fd = false; thread = false }

Reach-IsLog_example :
    IsLog
      (rb_log_push 2 msg func (pos 7) (rb_log_init 3 stopped_log))
      (if log_passes (some 3) 2 then [] ++ (format_line msg func (pos 7) ∷ []) else [])
unfolding rb_log_init
Reach-IsLog_example =
    Reach-IsLog (next (initial 3 stopped_log refl refl refl) (pushed 2 msg func (pos 7)))

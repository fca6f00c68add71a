-- ===== src/Log.antt =====
-- src/log/rb_log.c: the ring of log lines, what writes to it, and the thread and the function that
-- empty it; `rb_log_enabled` and `rb_log_level_name` of src/include/funcs.h.
-- A string is the list of its bytes before the NUL. The mutex makes a push and a round of the thread
-- one step each.
pub mod Line
pub mod Ring
pub mod Drain
pub mod Steps
mod Tests
use Prim.Native.Nat.{bit_and}
use dmmr_orbit.Base.{
  ℕ, zero, suc, ◌+◌, ◌-◌, ◌/◌, ◌%◌, ltb, ◌==◌, if◌then◌else◌, ◌&&◌, not, Bool, true, false, Option,
  none, some, List, [], ◌∷◌, ◌++◌, map, length, get_or, set, replicate, Run, ret, hang, ◌>>=◌,
}
use dmmr_orbit.Base.Int.{ℤ, neg_part, pos_part}

abbrev pub Line : Type 0
Line = List ℕ

abbrev pub rb_log_buffer_size : ℕ
rb_log_buffer_size = 256

abbrev pub rb_log_line_size : ℕ
rb_log_line_size = 512

-- What leaves the program: a vector of lines for the system's log, or a line of text.
pub data Output : Type 0 where
  to_syslog : List Line → Output
  to_stderr : Line → Output

-- The static data of the file. The configuration's pointer stands for its log level; a descriptor is
-- a flag, false for EOF. `thread` is true while the thread runs, and `out` is what has been written.
pub record LogState : Type 0 where
  pub cfg : Option ℕ
  pub queue : List Line
  pub write_pos : ℕ
  pub read_pos : ℕ
  pub run : Bool
  pub syslog_fd : Bool
  pub thread : Bool
  pub out : List Output

abbrev pub rb_log_enabled : ℕ → ℕ → Bool
rb_log_enabled m l = not (bit_and m l == 0)

-- `if (p < end) *p++ = c;`, with the bytes from `buf` to `p`.
abbrev pub put_char : ℕ → Line → Line
put_char c written =
    if ltb (length written) (rb_log_line_size - 1) then written ++ (c ∷ []) else written

-- `while (*text && p < end) *p++ = *text++;`
unfoldable pub put_text : Line → Line → Line
put_text [] written = written
put_text (c ∷ text) written =
    let rest = put_text text (written ++ (c ∷ [])) in
    if ltb (length written) (rb_log_line_size - 1) then rest else written

-- The do loop on `abs_line`; what is in `num` stands last. The fuel is at least the number.
unfoldable pub line_digits : ℕ → ℕ → Line → Line
line_digits zero n num = (48 + n % 10) ∷ num
line_digits (suc fuel) n num =
    let rest = line_digits fuel (n / 10) ((48 + n % 10) ∷ num) in
    if n / 10 == 0 then (48 + n % 10) ∷ num else rest

-- `num`, for a line whose negation is an `int`.
abbrev pub line_text : ℤ → Line
line_text line =
    let abs_line = neg_part line + pos_part line in
    let num = line_digits abs_line abs_line [] in if neg_part line == 0 then num else 45 ∷ num

-- What is written into the line's buffer before the NUL.
abbrev pub format_line : Line → Line → ℤ → Line
format_line msg func line = put_text msg (
    put_char 32
      (put_char 41 (put_text (line_text line) (put_char 40 (put_char 32 (put_text func []))))))

abbrev pub enqueue : Line → LogState → LogState
enqueue text s = record s {
  queue = set s.queue s.write_pos text;
  write_pos = (s.write_pos + 1) % rb_log_buffer_size;
}

abbrev pub log_passes : Option ℕ → ℕ → Bool
log_passes none level = true
log_passes (some log_level) level = rb_log_enabled log_level level

unfoldable pub rb_log_push : ℕ → Line → Line → ℤ → LogState → LogState
rb_log_push level msg func line s =
    if log_passes s.cfg level then enqueue (format_line msg func line) s else s

-- The loop that fills `iov`, with the room that is left in it: the lines, and `read_pos` behind them.
unfoldable pub fill_batch : ℕ → List Line → ℕ → ℕ → List Line × ℕ
fill_batch zero queue write_pos read_pos = ([], read_pos)
fill_batch (suc room) queue write_pos read_pos =
    let (lines, after) = fill_batch room queue write_pos ((read_pos + 1) % rb_log_buffer_size) in
    if read_pos == write_pos then ([], read_pos) else (get_or queue read_pos [] ∷ lines, after)

-- The loop over the batches, where `write_batch` says what one batch writes. The fuel counts rounds.
unfoldable pub drain : ℕ → (List Line → List Output) → LogState → Run LogState
drain zero write_batch s = if s.read_pos == s.write_pos then ret s else hang
drain (suc fuel) write_batch s =
    let (lines, after) = fill_batch 16 s.queue s.write_pos s.read_pos in
    let rest =
      drain fuel write_batch (record s { read_pos = after; out = s.out ++ write_batch lines }) in
    if s.read_pos == s.write_pos then ret s else rest

abbrev pub has_lines : List Line → Bool
has_lines lines = ltb 0 (length lines)

-- A batch in the thread, and in `rb_log_flush`.
abbrev pub write_or_print : Bool → List Line → List Output
write_or_print fd lines =
    if fd && has_lines lines
    then to_syslog lines ∷ []
    else if not fd && has_lines lines
    then map to_stderr lines
    else []

abbrev pub write_only : Bool → List Line → List Output
write_only fd lines = if fd && has_lines lines then to_syslog lines ∷ [] else []

unfoldable pub rb_log_flush : ℕ → LogState → Run LogState
rb_log_flush fuel s = drain fuel (write_only s.syslog_fd) s

-- The thread up to its loop, with what `socket` and `connect` do.
unfoldable pub thread_start : Bool → Bool → LogState → LogState
thread_start opened connected s = record s {
  syslog_fd = opened && connected;
  thread = opened && connected;
}

-- The condition on which a round of the thread waits.
abbrev pub waits : LogState → Bool
waits s = (s.read_pos == s.write_pos) && s.run

-- A round of the thread that does not wait. After the last one it closes the socket and ends.
unfoldable pub thread_round : ℕ → LogState → Run LogState
thread_round fuel s = drain fuel (write_or_print s.syslog_fd) s >>= λ s'.
    if s'.run then ret s' else ret (record s' { syslog_fd = false; thread = false })

unfoldable pub rb_log_init : ℕ → LogState → LogState
rb_log_init log_level s = record s {
  cfg = some log_level;
  queue = replicate rb_log_buffer_size [];
  write_pos = 0;
  read_pos = 0;
  run = true;
}

-- The request to stop, then the end of the thread, if it still runs, which the join waits for. The
-- thread tests `run` behind its unlock: `at_test` says that it stands there, with lines that came since
-- its round, and then it ends without another one.
unfoldable pub rb_log_shutdown : ℕ → Bool → LogState → Run LogState
rb_log_shutdown fuel at_test s =
    let stopped = record s { run = false } in
    if s.thread
    then if at_test
      then ret (record stopped { syslog_fd = false; thread = false })
      else thread_round fuel stopped
    else ret stopped

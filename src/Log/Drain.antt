-- ===== src/Log/Drain.antt =====
-- The loops of src/log/rb_log.c that empty the ring: `rb_log_flush`, a round of the thread, and the
-- last round, which `rb_log_shutdown` waits for.
use mathlib.Core.List.{append-nil, append_assoc}
use dmmr_orbit.Base.{
  ℕ, zero, suc, ◌+◌, ◌-◌, ◌*◌, ◌%◌, ◌≤◌, ◌<◌, min, ◌==◌, if◌then◌else◌, Bool, Bool-cases, inl, inr,
  true, false, List, [], ◌∷◌, ◌++◌, map, length, concat, ret, ◌≡◌, ◌⊎◌, refl, sym, ap, ◌∙◌, arith,
}
use dmmr_orbit.Base.Sort.{All}
use dmmr_orbit.Log.{
  Line, Output, to_syslog, to_stderr, LogState, fill_batch, drain, has_lines, write_or_print,
  write_only, rb_log_flush, thread_round, rb_log_shutdown,
}
use dmmr_orbit.Log.Ring.{IsRing, entries, size, pending, length-entries}

-- A vector that `writev` is called with: it has 1 to 16 lines.
abbrev pub IsBatch : List Line → Type 0
IsBatch b = (0 < length b) × (length b ≤ 16)

entries-add :
    (a b : ℕ) (q : List Line) (p : ℕ)
    → p < 256
    → entries q p (a + b) ≡ entries q p a ++ entries q ((p + a) % 256) b
entries-add zero b q p h =
    let none_yet : 0 + b ≡ b = omega arith in
    let same : (p + 0) % 256 ≡ p = omega arith in rw (none_yet, same) refl
entries-add (suc a) b q p h =
    let one_more : suc a + b ≡ suc (a + b) = omega arith in
    let next : ((p + 1) % 256 + a) % 256 ≡ (p + suc a) % 256 = omega arith in
    rw (one_more, entries-add a b q ((p + 1) % 256) (omega arith), next) refl

-- The first lines that wait, as many as there is room for.
fill_batch_lem :
    (room n : ℕ) (q : List Line) (w p : ℕ)
    → p < 256
    → w ≡ (p + n) % 256
    → n < 256
    → fill_batch room q w p ≡ (entries q p (min room n), (p + min room n) % 256)
unfolding fill_batch
fill_batch_lem zero n q w p hp hw hn =
    let least : min 0 n ≡ 0 = omega arith in
    let same : (p + 0) % 256 ≡ p = omega arith in rw (least, same) refl
fill_batch_lem (suc room) zero q w p hp hw hn =
    let least : min (suc room) 0 ≡ 0 = omega arith in
    let same : (p + 0) % 256 ≡ p = omega arith in
    let over : (p == w) ≡ true = ground arith in rw (fill_batch, over, least, same) refl
fill_batch_lem (suc room) (suc n) q w p hp hw hn =
    let more : (p == w) ≡ false = ground arith in
    let least : min (suc room) (suc n) ≡ suc (min room n) = omega arith in
    let next : ((p + 1) % 256 + min room n) % 256 ≡ (p + suc (min room n)) % 256 = omega arith in
    rw
      (
        fill_batch,
        more,
        least,
        fill_batch_lem room n q w ((p + 1) % 256) (omega arith) (omega arith) (omega arith),
        next,
      )
      refl

-- The ring emptied, with what was written.
abbrev pub emptied : LogState → List Output → LogState
emptied s outputs = record s { read_pos = s.write_pos; out = s.out ++ outputs }

drain_lem :
    (fuel : ℕ) (wr : List Line → List Output) (s : LogState)
    → IsRing s
    → size s ≤ 16 * fuel
    → (bs : List (List Line)) × (drain fuel wr s ≡ ret (emptied s (concat (map wr bs))))
      × (concat bs ≡ pending s)
      × All IsBatch bs
unfolding drain
drain_lem zero wr s (whole, read, write) h =
    let nothing : s.read_pos ≡ s.write_pos = omega arith in
    let over : (s.read_pos == s.write_pos) ≡ true = ground arith in
    let empty : size s ≡ 0 = omega arith in
    (
      [],
      rw (over, append-nil s.out) (ap (λ r. ret (record s { read_pos = r })) nothing),
      rw empty refl,
      tt,
    )
drain_lem (suc fuel) wr s (whole, read, write) h =
    let n = size s in
    elim (Bool-cases (n == 0)) [
      | inl none_left ↦
          let over : (s.read_pos == s.write_pos) ≡ true = ground arith in
          let nothing : s.read_pos ≡ s.write_pos = ground arith in
          let empty : size s ≡ 0 = ground arith in
          (
            [],
            rw (drain, over, append-nil s.out) (ap (λ r. ret (record s { read_pos = r })) nothing),
            rw empty refl,
            tt,
          )
      | inr some_left ↦
          let more : (s.read_pos == s.write_pos) ≡ false = ground arith in
          let taken = min 16 n in
          let batch = entries s.queue s.read_pos taken in
          let after = (s.read_pos + taken) % 256 in
          let s' : LogState = record s { read_pos = after; out = s.out ++ wr batch } in
          let left : size s' ≡ n - taken = ground arith in
          let (bs, e, joined, each) =
            drain_lem fuel wr s' (whole, omega arith, write) (omega arith) in
          let filled =
            fill_batch_lem 16 n s.queue s.write_pos s.read_pos read (omega arith) (omega arith) in
          let all : taken + (n - taken) ≡ n = omega arith in
          let whole_queue : batch ++ concat bs ≡ pending s =
            ap (λ l. batch ++ l) (joined ∙ ap (entries s.queue after) left)
            ∙ sym (entries-add taken (n - taken) s.queue s.read_pos read)
            ∙ ap (entries s.queue s.read_pos) all in
          let count = length-entries s.queue s.read_pos taken in
          let sizes : IsBatch batch = (ground arith, omega arith) in
          (
            batch ∷ bs,
            rw (drain, more, filled, e, append_assoc s.out (wr batch) (concat (map wr bs))) refl,
            whole_queue,
            (sizes, each),
          )
    ]

-- What the batches write: to the system's log as they are, and otherwise nothing, or line by line.
write_only-open :
    (bs : List (List Line)) → All IsBatch bs → concat (map (write_only true) bs) ≡ map to_syslog bs
write_only-open [] h = refl
write_only-open (b ∷ bs) (l, h) =
    let some_lines : has_lines b ≡ true = ground arith in rw (some_lines, write_only-open bs h) refl

write_only-closed : (bs : List (List Line)) → concat (map (write_only false) bs) ≡ []
write_only-closed [] = refl
write_only-closed (b ∷ bs) = write_only-closed bs

write_or_print-open :
    (bs : List (List Line))
    → All IsBatch bs
    → concat (map (write_or_print true) bs) ≡ map to_syslog bs
write_or_print-open [] h = refl
write_or_print-open (b ∷ bs) (l, h) =
    let some_lines : has_lines b ≡ true = ground arith in
    rw (some_lines, write_or_print-open bs h) refl

map-append : (xs ys : List Line) → map to_stderr (xs ++ ys) ≡ map to_stderr xs ++ map to_stderr ys
map-append [] ys = refl
map-append (x ∷ xs) ys = ap (λ q. to_stderr x ∷ q) (map-append xs ys)

write_or_print-closed :
    (bs : List (List Line))
    → All IsBatch bs
    → concat (map (write_or_print false) bs) ≡ map to_stderr (concat bs)
write_or_print-closed [] h = refl
write_or_print-closed (b ∷ bs) (l, h) =
    let some_lines : has_lines b ≡ true = ground arith in
    rw (some_lines, write_or_print-closed bs h, map-append b (concat bs)) refl

-- In a ring, `rb_log_flush` ends within 16 rounds and empties the ring. With an open socket it has
-- written every waiting line, in order, in vectors of 1 to 16 lines; with none it has written nothing.
pub rb_log_flush_lem :
    (fuel : ℕ) (s : LogState)
    → IsRing s
    → 16 ≤ fuel
    → (bs : List (List Line)) × (rb_log_flush fuel s
        ≡ ret (emptied s (if s.syslog_fd then map to_syslog bs else [])))
      × (concat bs ≡ pending s)
      × All IsBatch bs
unfolding rb_log_flush
rb_log_flush_lem fuel s h enough =
    let (bs, e, joined, each) = drain_lem fuel (write_only s.syslog_fd) s h (omega arith) in
    (bs, e ∙ ap (λ o. ret (emptied s o)) (which s.syslog_fd bs each), joined, each)
  where
    which :
        (fd : Bool) (bs : List (List Line))
        → All IsBatch bs
        → concat (map (write_only fd) bs) ≡ (if fd then map to_syslog bs else [])
    which true bs each = write_only-open bs each
    which false bs each = write_only-closed bs

-- The thread at the end of a round: it goes on, or closes the socket and ends.
abbrev pub settled : LogState → LogState
settled s = if s.run then s else record s { syslog_fd = false; thread = false }

-- In a ring, a round of the thread ends within 16 rounds of its loop and empties the ring. It has
-- written every waiting line, in order: in vectors of 1 to 16 lines with an open socket, and one by
-- one to the error stream with none. When the thread is to stop, it has closed the socket and ended.
pub thread_round_lem :
    (fuel : ℕ) (s : LogState)
    → IsRing s
    → 16 ≤ fuel
    → (bs : List (List Line)) × (thread_round fuel s
        ≡ ret (
            settled
              (emptied s (if s.syslog_fd then map to_syslog bs else map to_stderr (pending s)))))
      × (concat bs ≡ pending s)
      × All IsBatch bs
unfolding thread_round
thread_round_lem fuel s h enough =
    let (bs, e, joined, each) = drain_lem fuel (write_or_print s.syslog_fd) s h (omega arith) in
    let written =
      which s.syslog_fd bs each
      ∙ ap (λ l. if s.syslog_fd then map to_syslog bs else map to_stderr l) joined in
    (
      bs,
      rw (thread_round, e, written)
          (ending s.run
            (emptied s (if s.syslog_fd then map to_syslog bs else map to_stderr (pending s)))),
      joined,
      each,
    )
  where
    which :
        (fd : Bool) (bs : List (List Line))
        → All IsBatch bs
        → concat (map (write_or_print fd) bs)
          ≡ (if fd then map to_syslog bs else map to_stderr (concat bs))
    which true bs each = write_or_print-open bs each
    which false bs each = write_or_print-closed bs each

    ending :
        (run : Bool) (t : LogState)
        → (if run then ret t else ret (record t { syslog_fd = false; thread = false }))
          ≡ ret (if run then t else record t { syslog_fd = false; thread = false })
    ending true t = refl
    ending false t = refl

-- The log behind the end of its thread.
abbrev pub ended : LogState → LogState
ended s = record s { run = false; syslog_fd = false; thread = false }

-- While the thread runs on an open socket, `rb_log_shutdown` returns within 16 rounds of the loop, with
-- the socket closed and the thread ended. A thread that waits or is in its round hands every line that
-- waited to `writev`, in order and in vectors of 1 to 16 lines, and empties the ring; what `writev`
-- returns is not looked at. A thread that stands at its test hands over none: the lines stay in the
-- ring.
pub rb_log_shutdown_lem :
    (fuel : ℕ) (at_test : Bool) (s : LogState)
    → IsRing s
    → s.thread ≡ true
    → s.syslog_fd ≡ true
    → 16 ≤ fuel
    → ((at_test ≡ false)
        × ((bs : List (List Line)) × (rb_log_shutdown fuel at_test s
              ≡ ret (ended (emptied s (map to_syslog bs))))
            × (concat bs ≡ pending s)
            × All IsBatch bs))
      ⊎ ((at_test ≡ true)
          × (rb_log_shutdown fuel at_test s ≡ ret (ended s))
          × (pending (ended s) ≡ pending s))
unfolding rb_log_shutdown
rb_log_shutdown_lem fuel true s h runs given enough =
    inr (refl, rw (rb_log_shutdown, runs) refl, refl)
rb_log_shutdown_lem fuel false s h runs given enough =
    let stopped : LogState = record s { run = false } in
    let (bs, e, joined, each) = thread_round_lem fuel stopped h enough in
    let outputs : Bool → List Output =
      λ b. if b then map to_syslog bs else map to_stderr (pending s) in
    inl (
      refl,
      (
        bs,
        ap (λ b. if b then thread_round fuel stopped else ret stopped) runs
            ∙ e
            ∙ ap (λ b. ret (settled (emptied stopped (outputs b)))) given,
        joined,
        each,
      ),
    )

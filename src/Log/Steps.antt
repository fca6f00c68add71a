-- ===== src/Log/Steps.antt =====
-- The log of src/log/rb_log.c in use: pushes, flushes and rounds of the thread, in any order.
use mathlib.Core.Path.{subst}
use mathlib.Core.List.{append-nil, append_assoc}
use dmmr_orbit.Base.{
  ℕ, ◌+◌, ◌-◌, ◌%◌, ◌⊎◌, ◌==◌, if◌then◌else◌, Bool, Bool-cases, inl, inr, true, false, List, [],
  ◌∷◌, ◌++◌, map, length, concat, Run, ret, fault, hang, ◌≡◌, refl, sym, ap, ◌∙◌, arith,
}
use dmmr_orbit.Base.Int.{ℤ}
use dmmr_orbit.Log.{
  Line, Output, to_syslog, to_stderr, LogState, log_passes, format_line, rb_log_push, waits,
  rb_log_flush, thread_start, thread_round, rb_log_init,
}
use dmmr_orbit.Log.Ring.{IsRing, pending, push, enqueue_lem, rb_log_init_lem}
use dmmr_orbit.Log.Drain.{emptied, settled, rb_log_flush_lem, thread_round_lem}

-- The steps, each with the lines that were let through before and after it. The thread may start as
-- long as it does not run; the last step is the request to stop.
pub data Step : LogState → List Line → LogState → List Line → Type 0 where
  started :
      {s : LogState} {h : List Line} (opened connected : Bool)
      → s.thread ≡ false
      → Step s h (thread_start opened connected s) h
  pushed :
      {s : LogState} {h : List Line} (level : ℕ) (msg func : Line) (line : ℤ)
      → Step s h
          (rb_log_push level msg func line s)
          (if log_passes s.cfg level then h ++ (format_line msg func line ∷ []) else h)
  flushed : {s s' : LogState} {h : List Line} → rb_log_flush 16 s ≡ ret s' → Step s h s' h
  round :
      {s s' : LogState} {h : List Line}
      → s.thread ≡ true
      → waits s ≡ false
      → thread_round 16 s ≡ ret s'
      → Step s h s' h
  stopping : {s : LogState} {h : List Line} → Step s h (record s { run = false }) h

-- What `rb_log_init` and any number of steps lead to.
pub data Reach : LogState → List Line → Type 0 where
  initial :
      (log_level : ℕ) (s : LogState)
      → s.out ≡ []
      → s.thread ≡ false
      → s.syslog_fd ≡ false
      → Reach (rb_log_init log_level s) []
  next : {s s' : LogState} {h h' : List Line} → Reach s h → Step s h s' h' → Reach s' h'

-- `Sub xs ys`: the lines `xs` are lines of `ys`, in order and each at most once.
pub data Sub : List Line → List Line → Type 0 where
  nothing : Sub [] []
  keep : {x : Line} {xs ys : List Line} → Sub xs ys → Sub (x ∷ xs) (x ∷ ys)
  skip : {y : Line} {xs ys : List Line} → Sub xs ys → Sub xs (y ∷ ys)

-- The lines of what was written.
abbrev pub lines_of : Output → List Line
lines_of (to_syslog lines) = lines
lines_of (to_stderr line) = line ∷ []

abbrev pub written : List Output → List Line
written out = concat (map lines_of out)

Sub-snoc : {xs ys : List Line} (x : Line) → Sub xs ys → Sub (xs ++ (x ∷ [])) (ys ++ (x ∷ []))
Sub-snoc x nothing = keep nothing
Sub-snoc x (keep h) = keep (Sub-snoc x h)
Sub-snoc x (skip h) = skip (Sub-snoc x h)

Sub-later : {xs ys : List Line} (y : Line) → Sub xs ys → Sub xs (ys ++ (y ∷ []))
Sub-later y nothing = skip nothing
Sub-later y (keep h) = keep (Sub-later y h)
Sub-later y (skip h) = skip (Sub-later y h)

Sub-nil : (ys : List Line) → Sub [] ys
Sub-nil [] = nothing
Sub-nil (y ∷ ys) = skip (Sub-nil ys)

Sub-trans : {xs ys zs : List Line} → Sub xs ys → Sub ys zs → Sub xs zs
Sub-trans h nothing = h
Sub-trans h (skip g) = skip (Sub-trans h g)
Sub-trans (keep h) (keep g) = keep (Sub-trans h g)
Sub-trans (skip h) (keep g) = skip (Sub-trans h g)

Sub-append : (xs zs : List Line) → Sub xs (xs ++ zs)
Sub-append [] zs = Sub-nil zs
Sub-append (x ∷ xs) zs = keep (Sub-append xs zs)

Sub-push : (w q h : List Line) (x : Line) → Sub (w ++ q) h → Sub (w ++ push q x) (h ++ (x ∷ []))
Sub-push w q h x sub = elim (Bool-cases (length q == 255)) [
  | inl full ↦ rw (full, append-nil w) (Sub-later x (Sub-trans (Sub-append w q) sub))
  | inr free ↦ rw (free, sym (append_assoc w q (x ∷ []))) (Sub-snoc x sub)
]

written-append : (a b : List Output) → written (a ++ b) ≡ written a ++ written b
written-append [] b = refl
written-append (o ∷ a) b =
    ap (λ q. lines_of o ++ q) (written-append a b)
    ∙ sym (append_assoc (lines_of o) (written a) (written b))

written-syslog : (bs : List (List Line)) → written (map to_syslog bs) ≡ concat bs
written-syslog [] = refl
written-syslog (b ∷ bs) = ap (λ q. b ++ q) (written-syslog bs)

written-stderr : (ls : List Line) → written (map to_stderr ls) ≡ ls
written-stderr [] = refl
written-stderr (l ∷ ls) = ap (λ q. l ∷ q) (written-stderr ls)

-- The lines that have been written and those that wait come from the lines that were let through.
abbrev pub IsLog : LogState → List Line → Type 0
IsLog s h = IsRing s × (s.thread ≡ s.syslog_fd) × Sub (written s.out ++ pending s) h

abbrev value : LogState → Run LogState → LogState
value d (ret s) = s
value d fault = d
value d hang = d

-- A push.
pushed-IsLog :
    (level : ℕ) (msg func : Line) (line : ℤ) (s : LogState) (h : List Line)
    → IsLog s h
    → IsLog
        (rb_log_push level msg func line s)
        (if log_passes s.cfg level then h ++ (format_line msg func line ∷ []) else h)
unfolding rb_log_push
pushed-IsLog level msg func line s h (ring, fd, sub) = elim (Bool-cases (log_passes s.cfg level)) [
  | inl on ↦
      let text = format_line msg func line in
      let (ring', e) = enqueue_lem text s ring in
      rw (rb_log_push, on) (ring', fd, rw e (Sub-push (written s.out) (pending s) h text sub))
  | inr off ↦ rw (rb_log_push, off) (ring, fd, sub)
]

-- The ring emptied, with some of the waiting lines, or all of them, written.
emptied-Sub :
    (s : LogState) (h : List Line) (outputs : List Output)
    → Sub (written s.out ++ pending s) h
    → (written outputs ≡ pending s) ⊎ (written outputs ≡ [])
    → Sub (written (s.out ++ outputs)) h
emptied-Sub s h outputs sub (inl e) = rw (written-append s.out outputs, e) sub
emptied-Sub s h outputs sub (inr e) =
    rw (written-append s.out outputs, e, append-nil (written s.out))
      (Sub-trans (Sub-append (written s.out) (pending s)) sub)

emptied_ring : (s : LogState) (outputs : List Output) → IsRing s → pending (emptied s outputs) ≡ []
emptied_ring s outputs (whole, read, write) =
    let zero_left : (s.write_pos + 256 - s.write_pos) % 256 ≡ 0 = omega arith in rw zero_left refl

emptied-IsLog :
    (s : LogState) (h : List Line) (outputs : List Output)
    → IsLog s h
    → (written outputs ≡ pending s) ⊎ (written outputs ≡ [])
    → IsLog (emptied s outputs) h
emptied-IsLog s h outputs ((whole, read, write), fd, sub) which = (
  (whole, write, write),
  fd,
  rw (emptied_ring s outputs (whole, read, write), append-nil (written (s.out ++ outputs)))
      (emptied-Sub s h outputs sub which),
)

settled-IsLog : (s : LogState) (h : List Line) → IsLog s h → IsLog (settled s) h
settled-IsLog s h (ring, fd, sub) = elim (Bool-cases s.run) [
  | inl on ↦
      subst (λ t. IsLog t h)
        (ap (λ b. if b then s else record s { syslog_fd = false; thread = false }) (sym on))
        (ring, fd, sub)
  | inr off ↦
      subst (λ t. IsLog t h)
        (ap (λ b. if b then s else record s { syslog_fd = false; thread = false }) (sym off))
        (ring, refl, sub)
]

flushed-IsLog :
    (s s' : LogState) (h : List Line) → IsLog s h → rb_log_flush 16 s ≡ ret s' → IsLog s' h
flushed-IsLog s s' h log e =
    let (bs, e', joined, each) = rb_log_flush_lem 16 s log.0 (omega arith) in
    subst (λ t. IsLog t h) (ap (value s) (sym e' ∙ e))
      (emptied-IsLog s h (if s.syslog_fd then map to_syslog bs else []) log
        (which s.syslog_fd bs joined))
  where
    which :
        (fd : Bool) (bs : List (List Line))
        → concat bs ≡ pending s
        → (written (if fd then map to_syslog bs else []) ≡ pending s)
          ⊎ (written (if fd then map to_syslog bs else []) ≡ [])
    which true bs joined = inl (written-syslog bs ∙ joined)
    which false bs joined = inr refl

round-IsLog :
    (s s' : LogState) (h : List Line) → IsLog s h → thread_round 16 s ≡ ret s' → IsLog s' h
round-IsLog s s' h log e =
    let (bs, e', joined, each) = thread_round_lem 16 s log.0 (omega arith) in
    let outputs = if s.syslog_fd then map to_syslog bs else map to_stderr (pending s) in
    subst (λ t. IsLog t h) (ap (value s) (sym e' ∙ e))
      (settled-IsLog (emptied s outputs) h
        (emptied-IsLog s h outputs log (inl (which s.syslog_fd bs joined))))
  where
    which :
        (fd : Bool) (bs : List (List Line))
        → concat bs ≡ pending s
        → written (if fd then map to_syslog bs else map to_stderr (pending s)) ≡ pending s
    which true bs joined = written-syslog bs ∙ joined
    which false bs joined = written-stderr (pending s)

Step-IsLog : {s s' : LogState} {h h' : List Line} → IsLog s h → Step s h s' h' → IsLog s' h'
unfolding thread_start
Step-IsLog log (started opened connected off) = (log.0, refl, log.2)
Step-IsLog {s = s} {h = h} log (pushed level msg func line) =
    pushed-IsLog level msg func line s h log
Step-IsLog {s = s} {s' = s'} {h = h} log (flushed e) = flushed-IsLog s s' h log e
Step-IsLog {s = s} {s' = s'} {h = h} log (round runs goes e) = round-IsLog s s' h log e
Step-IsLog log stopping = log

-- However pushes, flushes and rounds of the thread follow each other: the ring keeps its bounds, the
-- thread runs exactly while the socket is open, and the lines that have been written, followed by
-- those that wait, are lines that the log level let through, in the order of their pushes and each
-- at most once.
pub Reach-IsLog : {s : LogState} {h : List Line} → Reach s h → IsLog s h
unfolding rb_log_init
Reach-IsLog (initial log_level s out thread fd) =
    let (ring, e) = rb_log_init_lem log_level s in (ring, thread ∙ sym fd, rw (out, e) nothing)
Reach-IsLog (next r step) = Step-IsLog (Reach-IsLog r) step

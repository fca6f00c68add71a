-- ===== src/Log/Ring.antt =====
-- The ring of log lines of src/log/rb_log.c as a queue.
use dmmr_orbit.Base.{
  ℕ, zero, suc, ◌+◌, ◌-◌, ◌%◌, ◌<◌, ◌==◌, if◌then◌else◌, Bool-cases, inl, inr, List, [], ◌∷◌, ◌++◌,
  length, length-set, get_or, set, length-replicate, ◌≡◌, ◌≢◌, refl, sym, ap, ◌∙◌, arith,
}
use dmmr_orbit.Base.Int.{ℤ}
use dmmr_orbit.Log.{Line, LogState, log_passes, enqueue, rb_log_push, rb_log_init, format_line}

-- The ring has its size, and both positions stand in it.
abbrev pub IsRing : LogState → Type 0
IsRing s = (length s.queue ≡ 256) × (s.read_pos < 256) × (s.write_pos < 256)

-- `n` lines of the ring from `p` on.
abbrev pub entries : List Line → ℕ → ℕ → List Line
entries queue p zero = []
entries queue p (suc n) = get_or queue p [] ∷ entries queue ((p + 1) % 256) n

abbrev pub size : LogState → ℕ
size s = (s.write_pos + 256 - s.read_pos) % 256

-- The lines that wait to be written, the oldest first.
abbrev pub pending : LogState → List Line
pending s = entries s.queue s.read_pos (size s)

-- What a push makes of the lines that wait.
abbrev pub push : List Line → Line → List Line
push q text = if length q == 255 then [] else q ++ (text ∷ [])

pub length-entries : (queue : List Line) (p n : ℕ) → length (entries queue p n) ≡ n
length-entries queue p zero = refl
length-entries queue p (suc n) = ap suc (length-entries queue ((p + 1) % 256) n)

get_or-set_self : (q : List Line) (i : ℕ) (v : Line) → i < length q → get_or (set q i v) i [] ≡ v
get_or-set_self [] i v h = absurd (omega arith)
get_or-set_self (x ∷ q) zero v h = refl
get_or-set_self (x ∷ q) (suc i) v h = get_or-set_self q i v (omega arith)

get_or-set_ne :
    (q : List Line) (i j : ℕ) (v : Line) → i ≢ j → get_or (set q i v) j [] ≡ get_or q j []
get_or-set_ne [] i j v h = refl
get_or-set_ne (x ∷ q) zero zero v h = absurd (h refl)
get_or-set_ne (x ∷ q) zero (suc j) v h = refl
get_or-set_ne (x ∷ q) (suc i) zero v h = refl
get_or-set_ne (x ∷ q) (suc i) (suc j) v h = get_or-set_ne q i j v (λ e. h (ap suc e))

-- A write at the end of the lines changes none of them, and is the next.
entries-set :
    (n : ℕ) (q : List Line) (p : ℕ) (v : Line)
    → p < 256
    → n < 256
    → entries (set q ((p + n) % 256) v) p n ≡ entries q p n
entries-set n q p v hp hn = other n q p ((p + n) % 256) v hp (λ i h. omega arith)
  where
    other :
        (n : ℕ) (q : List Line) (p w : ℕ) (v : Line)
        → p < 256
        → ((i : ℕ) → i < n → w ≢ (p + i) % 256)
        → entries (set q w v) p n ≡ entries q p n
    other zero q p w v hp h = refl
    other (suc n) q p w v hp h =
        let here : w ≢ p = λ e. h 0 (omega arith) (omega arith) in
        let later : (i : ℕ) → i < n → w ≢ ((p + 1) % 256 + i) % 256 =
          λ i l e. h (suc i) (omega arith) (omega arith) in
        rw (get_or-set_ne q w p v here, other n q ((p + 1) % 256) w v (omega arith) later) refl

entries-snoc :
    (n : ℕ) (q : List Line) (p : ℕ)
    → p < 256
    → entries q p (suc n) ≡ entries q p n ++ (get_or q ((p + n) % 256) [] ∷ [])
entries-snoc zero q p h = let same : (p + 0) % 256 ≡ p = omega arith in rw same refl
entries-snoc (suc n) q p h =
    let next : ((p + 1) % 256 + n) % 256 ≡ (p + suc n) % 256 = omega arith in
    ap (λ l. get_or q p [] ∷ l) (entries-snoc n q ((p + 1) % 256) (omega arith) ∙ rw next refl)

pub enqueue_lem :
    (text : Line) (s : LogState)
    → IsRing s
    → IsRing (enqueue text s) × (pending (enqueue text s) ≡ push (pending s) text)
enqueue_lem text s (whole, read, write) =
    let room = size s in
    let whole' : length (set s.queue s.write_pos text) ≡ 256 =
      length-set s.queue s.write_pos text ∙ whole in
    let count : length (pending s) ≡ room = length-entries s.queue s.read_pos room in
    let there : (s.read_pos + room) % 256 ≡ s.write_pos = omega arith in
    (
      (whole', read, omega arith),
      elim (Bool-cases (room == 255)) [
        | inl full ↦
            let none_left : size (enqueue text s) ≡ 0 = ground arith in
            rw (count, full, none_left) refl
        | inr free ↦
            let more : size (enqueue text s) ≡ suc room = ground arith in
            let kept : entries (set s.queue s.write_pos text) s.read_pos room ≡ pending s =
              ap (λ w. entries (set s.queue w text) s.read_pos room) (sym there)
              ∙ entries-set room s.queue s.read_pos text read (omega arith) in
            let self = get_or-set_self s.queue s.write_pos text (omega arith) in
            rw
              (
                count,
                free,
                more,
                entries-snoc room (set s.queue s.write_pos text) s.read_pos read,
                there,
                kept,
                self,
              )
              refl
      ],
    )

-- A line that the log level lets through is put behind the lines that wait, or, when 255 wait,
-- empties the queue; one that it does not let through changes nothing.
pub rb_log_push_lem :
    (level : ℕ) (msg func : Line) (line : ℤ) (s : LogState)
    → IsRing s
    → IsRing (rb_log_push level msg func line s)
      × (pending (rb_log_push level msg func line s) ≡ (
          if log_passes s.cfg level
          then push (pending s) (format_line msg func line)
          else pending s))
unfolding rb_log_push
rb_log_push_lem level msg func line s h = elim (Bool-cases (log_passes s.cfg level)) [
  | inl on ↦ rw (rb_log_push, on) (enqueue_lem (format_line msg func line) s h)
  | inr off ↦ rw (rb_log_push, off) (h, refl)
]

pub rb_log_init_lem :
    (log_level : ℕ) (s : LogState)
    → IsRing (rb_log_init log_level s) × (pending (rb_log_init log_level s) ≡ [])
unfolding rb_log_init
rb_log_init_lem log_level s = ((length-replicate {A = Line} 256 [], omega arith, omega arith), refl)

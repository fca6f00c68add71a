-- ===== src/Sleep/Exact.antt =====
-- src/include/dmmr_sleep.h: which waits end when they should.
use dmmr_orbit.Base.{
  ℕ, ◌+◌, ◌*◌, ◌%◌, ◌^◌, ◌<◌, ltb, if◌then◌else◌, Bool, true, false, ◌≡◌, ◌↔◌, arith,
}
use dmmr_orbit.Base.Int.{pos, ltb_ℤ, pos_part}
use dmmr_orbit.Sleep.{Timespec, nsleep_us, second}

-- What `clock_nanosleep` takes: it refuses any other number of nanoseconds and does not wait.
abbrev pub is_taken : Timespec → Bool
is_taken t = if ltb_ℤ t.tv_nsec (pos 0) then false else ltb_ℤ t.tv_nsec (pos second)

abbrev pub nanoseconds : Timespec → ℕ
nanoseconds t = t.tv_sec * second + pos_part t.tv_nsec

-- For less than 2 ^ 50 microseconds, the time handed over is the clock's time and the wait, but
-- `clock_nanosleep` takes it exactly when the clock's nanoseconds and the wait are less than two
-- seconds: a longer wait is none.
pub nsleep_us_lem :
    (us sec nsec : ℕ)
    → us < 2 ^ 50
    → nsec < second
    → (nanoseconds (nsleep_us us sec nsec) ≡ sec * second + nsec + us * 1000)
      × ((is_taken (nsleep_us us sec nsec) ≡ true) ↔ (nsec + us * 1000 < 2 * second))
unfolding nsleep_us
nsleep_us_lem us sec nsec h n =
    let sum : (nsec + us * 1000 % 2 ^ 64) % 2 ^ 64 ≡ nsec + us * 1000 = omega arith in
    let small : ltb (nsec + us * 1000) (2 ^ 63) ≡ true = ground arith in
    rw (sum, small) (ground arith)

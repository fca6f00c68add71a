-- ===== src/Sleep.antt =====
-- src/include/dmmr_sleep.h: the time until which a thread waits; with it the monotonic time of
-- src/scheduler/dmmr_scheduler.c.
-- `clock_gettime` is not of the repository: what it answers is an argument, and what it documents is
-- that the nanoseconds are below a second. `tv_nsec` is a signed number of 64 bits.
pub mod Exact
mod Tests
use dmmr_orbit.Base.{ℕ, ◌+◌, ◌-◌, ◌*◌, ◌/◌, ◌%◌, ◌^◌, ltb, leb, if◌then◌else◌}
use dmmr_orbit.Base.Int.{ℤ, pos, negsuc, sub_ℕ, pos_part, ltb_ℤ}

pub record Timespec : Type 0 where
  pub tv_sec : ℕ
  pub tv_nsec : ℤ

abbrev pub signed : ℕ → ℤ
signed u = if ltb u (2 ^ 63) then pos u else negsuc (2 ^ 64 - 1 - u)

abbrev pub second : ℕ
second = 1000000000

-- `if (ts.tv_nsec >= 1000000000)`: one carry.
abbrev pub carry : ℕ → ℤ → Timespec
carry sec nsec =
    if ltb_ℤ nsec (pos second)
    then record { tv_sec = sec; tv_nsec = nsec }
    else record { tv_sec = sec + 1; tv_nsec = pos (pos_part nsec - second) }

-- What `nsleep_us` hands to `clock_nanosleep`, from `sec` and `nsec` of the clock. The sum is that of
-- unsigned numbers, stored in a signed one.
unfoldable pub nsleep_us : ℕ → ℕ → ℕ → Timespec
nsleep_us us sec nsec = carry sec (signed ((nsec + us * 1000 % 2 ^ 64) % 2 ^ 64))

-- `_get_monotonic_time_us`.
unfoldable pub get_monotonic_time_us : ℕ → ℕ → ℕ
get_monotonic_time_us sec nsec = (sec * 1000000 % 2 ^ 64 + nsec / 1000) % 2 ^ 64

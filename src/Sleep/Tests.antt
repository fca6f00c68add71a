-- ===== src/Sleep/Tests.antt =====
-- A wait of 65535 microseconds, the longest that the configuration can hold.
use dmmr_orbit.Base.{◌+◌, ◌*◌, ◌<◌, true, ◌≡◌, ◌↔◌, arith}
use dmmr_orbit.Sleep.{nsleep_us, second}
use dmmr_orbit.Sleep.Exact.{is_taken, nanoseconds, nsleep_us_lem}

nsleep_us_example :
    (nanoseconds (nsleep_us 65535 7 999999999) ≡ 7 * second + 999999999 + 65535 * 1000)
    × ((is_taken (nsleep_us 65535 7 999999999) ≡ true) ↔ (999999999 + 65535 * 1000 < 2 * second))
nsleep_us_example = nsleep_us_lem 65535 7 999999999 (omega arith) (omega arith)

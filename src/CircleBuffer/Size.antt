-- ===== src/CircleBuffer/Size.antt =====
-- src/circle_buffer/include/calc_circle_buffer_size.h: the size of a buffer in unsigned numbers of 32
-- bits.
use dmmr_orbit.Base.{
  ℕ, ◌*◌, ◌/◌, ◌%◌, ◌^◌, ◌<◌, ◌==◌, if◌then◌else◌, Run, ret, fault, ◌≡◌, ◌≢◌, refl, arith, false,
}

pub record BufferSize : Type 0 where
  pub slots_per_conn : ℕ
  pub total_slots : ℕ
  pub total_bytes : ℕ
  pub total_bits : ℕ

-- `calc_buffer`. A division by zero has no value.
unfoldable pub calc_buffer : ℕ → ℕ → ℕ → ℕ → Run BufferSize
calc_buffer interval_ms sleep_us conns bytes_per_ms =
    let slots = (interval_ms * 1000 % 2 ^ 32) / sleep_us in
    let bytes = bytes_per_ms * interval_ms % 2 ^ 32 * conns % 2 ^ 32 in
    if sleep_us == 0
    then fault
    else ret (record {
      slots_per_conn = slots;
      total_slots = slots * conns % 2 ^ 32;
      total_bytes = bytes;
      total_bits = bytes * 8 % 2 ^ 32;
    })

-- Where the interval in microseconds, the slots, the bytes of one connection and the bits of all are
-- numbers of 32 bits, nothing wraps.
pub calc_buffer_lem :
    (interval_ms sleep_us conns bytes_per_ms : ℕ)
    → sleep_us ≢ 0
    → interval_ms * 1000 < 2 ^ 32
    → interval_ms * 1000 / sleep_us * conns < 2 ^ 32
    → bytes_per_ms * interval_ms < 2 ^ 32
    → bytes_per_ms * interval_ms * conns * 8 < 2 ^ 32
    → calc_buffer interval_ms sleep_us conns bytes_per_ms
      ≡ ret (record {
        slots_per_conn = interval_ms * 1000 / sleep_us;
        total_slots = interval_ms * 1000 / sleep_us * conns;
        total_bytes = bytes_per_ms * interval_ms * conns;
        total_bits = bytes_per_ms * interval_ms * conns * 8;
      })
unfolding calc_buffer
calc_buffer_lem interval_ms sleep_us conns bytes_per_ms some_sleep micro slots one bits =
    let sleeps : (sleep_us == 0) ≡ false = ground arith in
    let e1 : interval_ms * 1000 % 2 ^ 32 ≡ interval_ms * 1000 = omega arith in
    let e2 : bytes_per_ms * interval_ms % 2 ^ 32 ≡ bytes_per_ms * interval_ms = omega arith in
    let e3 : interval_ms * 1000 / sleep_us * conns % 2 ^ 32
        ≡ interval_ms * 1000 / sleep_us * conns =
      omega arith in
    let e4 : bytes_per_ms * interval_ms * conns % 2 ^ 32 ≡ bytes_per_ms * interval_ms * conns =
      omega arith in
    let e5 : bytes_per_ms * interval_ms * conns * 8 % 2 ^ 32
        ≡ bytes_per_ms * interval_ms * conns * 8 =
      omega arith in
    rw (sleeps, e1, e2, e3, e4, e5) refl

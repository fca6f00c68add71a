-- ===== src/Parser/Numbers.antt =====
-- src/parser/console.c: a printed configuration is read back.
use dmmr_orbit.Base.{
  ℕ, zero, suc, ◌+◌, ◌-◌, ◌*◌, ◌/◌, ◌%◌, ◌^◌, ◌≤◌, ◌<◌, ltb, if◌then◌else◌, Bool-cases, true, List,
  [], ◌∷◌, ◌++◌, ◌≡◌, refl, inl, inr, arith, some, ret,
}
use dmmr_orbit.Parser.{
  CfgServerServer, ConfigState, Token, keyword, number, decimal, strtoull, atoi, set_number,
  handle_token, console_run, config_none, config_scheduler_preemptive_deadline, config_sleep_time,
  config_session_size, config_circle_buffer_size, config_max_ports, config_real_time_dead_line,
  config_real_time_user_defined, config_rb_log_level,
}

-- The digits of a number; the fuel is at least its value.
unfoldable pub digits : ℕ → ℕ → List ℕ
digits zero n = (48 + n) ∷ []
digits (suc fuel) n =
    let rest = digits fuel (n / 10) in
    if ltb n 10 then (48 + n) ∷ [] else rest ++ ((48 + n % 10) ∷ [])

decimal-snoc :
    (v : ℕ) (ds : List ℕ) (d : ℕ) → decimal v (ds ++ (d ∷ [])) ≡ decimal v ds * 10 + (d - 48)
unfolding decimal
decimal-snoc v [] d = refl
decimal-snoc v (e ∷ ds) d = decimal-snoc (v * 10 + (e - 48)) ds d

pub decimal-digits : (fuel n : ℕ) → n ≤ fuel → decimal 0 (digits fuel n) ≡ n
unfolding digits decimal
decimal-digits zero n h = omega arith
decimal-digits (suc fuel) n h = elim (Bool-cases (ltb n 10)) [
  | inl short ↦ rw (digits, short) (omega arith)
  | inr long ↦
      let ten : 10 ≤ n = ground arith in
      rw
        (
          digits,
          long,
          decimal-snoc 0 (digits fuel (n / 10)) (48 + n % 10),
          decimal-digits fuel (n / 10) (omega arith),
        )
        (omega arith)
]

abbrev pub print : ℕ → Token
print n = number (digits n n)

-- The tokens of a file with the eight numbers of a configuration.
abbrev pub print_numbers : CfgServerServer → List Token
print_numbers c =
    keyword config_scheduler_preemptive_deadline
    ∷ print c.scheduler_preemptive_deadline
    ∷ keyword config_sleep_time
    ∷ print c.sleep_time
    ∷ keyword config_session_size
    ∷ print c.session_size
    ∷ keyword config_circle_buffer_size
    ∷ print c.circle_buffer_size
    ∷ keyword config_max_ports
    ∷ print c.max_ports
    ∷ keyword config_real_time_dead_line
    ∷ print c.real_time_dead_line
    ∷ keyword config_real_time_user_defined
    ∷ print c.real_time_user_defined
    ∷ keyword config_rb_log_level
    ∷ print c.log_level
    ∷ []

-- Each number is within what its setting can hold; the size of the circle buffer is an int.
pub record InRange (c : CfgServerServer) : Type 0 where
  pub preemptive : c.scheduler_preemptive_deadline < 2 ^ 64
  pub sleep : c.sleep_time < 2 ^ 16
  pub session : c.session_size < 2 ^ 16
  pub buffer : c.circle_buffer_size < 2 ^ 31
  pub ports : c.max_ports < 2 ^ 16
  pub dead_line : c.real_time_dead_line < 2 ^ 64
  pub user_defined : c.real_time_user_defined < 2 ^ 64
  pub level : c.log_level < 2 ^ 8

strtoull-digits : (n : ℕ) → n < 2 ^ 64 → strtoull (digits n n) ≡ n
strtoull-digits n h =
    let small : ltb n (2 ^ 64) ≡ true = ground arith in
    rw (strtoull, decimal-digits n n (omega arith), small) refl

atoi-digits : (n : ℕ) → n < 2 ^ 31 → atoi (digits n n) ≡ ret n
atoi-digits n h =
    let small : ltb n (2 ^ 31) ≡ true = ground arith in
    rw (atoi, decimal-digits n n (omega arith), small) refl

-- The numbers of a configuration in range, printed behind their keywords and handled from any state
-- with a configuration, replace the numbers of that configuration; its two URIs stay.
pub console_run-print_numbers :
    (c old : CfgServerServer) (setting : ConfigState)
    → InRange c
    → console_run (print_numbers c) (record { cfg = some old; current_setting = setting })
      ≡ ret (record {
        cfg = some (record c {
          trunk_accept_uri = old.trunk_accept_uri;
          trunk_dispatch_uri = old.trunk_dispatch_uri;
        });
        current_setting = config_none;
      })
unfolding console_run handle_token set_number
console_run-print_numbers c old setting r =
    let s16 : c.sleep_time % 2 ^ 16 ≡ c.sleep_time = omega (arith, r.sleep) in
    let c16 : c.session_size % 2 ^ 16 ≡ c.session_size = omega (arith, r.session) in
    let b32 : c.circle_buffer_size % 2 ^ 32 ≡ c.circle_buffer_size = omega (arith, r.buffer) in
    let p16 : c.max_ports % 2 ^ 16 ≡ c.max_ports = omega (arith, r.ports) in
    let l8 : c.log_level % 2 ^ 8 ≡ c.log_level = omega (arith, r.level) in
    rw
      (
        strtoull-digits c.scheduler_preemptive_deadline r.preemptive,
        atoi-digits c.sleep_time (omega (arith, r.sleep)),
        atoi-digits c.session_size (omega (arith, r.session)),
        atoi-digits c.circle_buffer_size r.buffer,
        atoi-digits c.max_ports (omega (arith, r.ports)),
        strtoull-digits c.real_time_dead_line r.dead_line,
        strtoull-digits c.real_time_user_defined r.user_defined,
        atoi-digits c.log_level (omega (arith, r.level)),
        s16,
        c16,
        b32,
        p16,
        l8,
      )
      refl

-- ===== src/Exception.antt =====
-- src/log/include/rb_exceptions.h and src/log/include/rb_trycatch.h: the exceptions, and the body that
-- the constructors of the components share.
-- A jump to the RB_CATCH block is a value. A message that is not plain ASCII is its place in the
-- source's table.
pub mod Levels
mod Tests
use dmmr_orbit.Base.{ℕ, ltb, ◌==◌, if◌then◌else◌, not, Bool, true, false, List, [], ◌∷◌, ◌++◌}

-- `rb_exception_code`.
abbrev pub rb_exc_alloc_fail : ℕ
rb_exc_alloc_fail = 1

abbrev pub rb_exc_null_config : ℕ
rb_exc_null_config = 2

abbrev pub rb_exc_server_init : ℕ
rb_exc_server_init = 3

abbrev pub rb_exc_posix_error : ℕ
rb_exc_posix_error = 5

abbrev pub rb_exc_max : ℕ
rb_exc_max = 7

-- The severities of syslog that the macros and the constructors log with.
abbrev pub log_err : ℕ
log_err = 3

abbrev pub log_info : ℕ
log_info = 6

pub data Message : Type 0 where
  -- `rb_exception_messages[code]`.
  of_code : ℕ → Message
  -- The text for a code out of the table.
  invalid_code : Message
  text : List ℕ → Message

abbrev pub rb_exc_message : ℕ → Message
rb_exc_message code = if ltb code rb_exc_max then of_code code else invalid_code

-- A call of `rb_log_push`.
pub record LogCall : Type 0 where
  pub level : ℕ
  pub message : Message

-- The end of a RB_TRY block, with what it logged: its value, or the code that the catch block finds.
pub data Tried {ℓ} (A : Type ℓ) : Type ℓ where
  completed : A → List LogCall → Tried A
  thrown : ℕ → List LogCall → Tried A

-- `RB_THROW`. The code is what `setjmp` returns, which is 1 for a jump with 0.
abbrev pub rb_throw {ℓ} : {A : Type ℓ} → ℕ → Tried A
rb_throw code =
    thrown (if code == 0 then 1 else code)
      (record { level = log_err; message = rb_exc_message code } ∷ [])

-- `RB_THROW_ERRNO` with the text that was found for `errno`.
abbrev pub rb_throw_errno {ℓ} : {A : Type ℓ} → Message → Tried A
rb_throw_errno message =
    thrown rb_exc_posix_error (record { level = log_err; message = message } ∷ [])

-- The RB_CATCH block of a constructor, which returns null; true is an object.
abbrev pub or_null : Tried Bool → Bool × List LogCall
or_null (completed made logs) = (made, logs)
or_null (thrown code logs) =
    (false, logs ++ (record { level = log_err; message = rb_exc_message code } ∷ []))

-- The body of a constructor: its arguments are tested, an object is allocated, and `created` is
-- logged.
unfoldable pub construct : Bool → Bool → List ℕ → Bool × List LogCall
construct has_args made created = or_null (
    if not has_args
    then rb_throw rb_exc_null_config
    else if not made
    then rb_throw rb_exc_alloc_fail
    else completed true (record { level = log_info; message = text created } ∷ []))

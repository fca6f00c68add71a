-- ===== src/Exception/Levels.antt =====
-- src/log/include/rb_trycatch.h with src/log/rb_log.c: what of a constructor's calls the log lets
-- through.
use dmmr_orbit.Base.{
  ℕ, suc, ◌<◌, if◌then◌else◌, ◌&&◌, ◌||◌, not, Bool, true, false, some, List, [], ◌∷◌, ◌≡◌, refl,
}
use dmmr_orbit.Base.Bits.{holds_below, holds_below-at}
use dmmr_orbit.Log.{rb_log_enabled, log_passes}
use dmmr_orbit.Exception.{LogCall, construct, log_err, log_info}

-- `rb_log_level_fatal`, `rb_log_level_error` and `rb_log_level_warn`.
abbrev pub rb_log_level_fatal : ℕ
rb_log_level_fatal = 1

abbrev pub rb_log_level_error : ℕ
rb_log_level_error = 2

abbrev pub rb_log_level_warn : ℕ
rb_log_level_warn = 4

-- How many of the calls come through a mask of levels.
abbrev pub passed : ℕ → List LogCall → ℕ
passed mask [] = 0
passed mask (c ∷ cs) =
    if log_passes (some mask) c.level then suc (passed mask cs) else passed mask cs

same : Bool → Bool → Bool
same true b = b
same false b = not b

same_sound : (a b : Bool) → same a b ≡ true → a ≡ b
unfolding same
same_sound true true h = refl
same_sound true false h = cc
same_sound false true h = cc
same_sound false false h = refl

info_table :
    holds_below
      (λ m.
        same
          (rb_log_enabled m log_info)
          (rb_log_enabled m rb_log_level_error || rb_log_enabled m rb_log_level_warn))
      256
    ≡ true
unfolding holds_below same
info_table = refl

err_table :
    holds_below
      (λ m.
        same
          (rb_log_enabled m log_err)
          (rb_log_enabled m rb_log_level_fatal || rb_log_enabled m rb_log_level_error))
      256
    ≡ true
unfolding holds_below same
err_table = refl

counted_twice :
    (b : Bool)
    → (if b then suc (if b then 1 else 0) else (if b then 1 else 0)) ≡ (if b then 2 else 0)
counted_twice true = refl
counted_twice false = refl

-- The severities are taken as a mask of levels: a constructor returns an object exactly when its
-- arguments are there and the allocation succeeds. Then its one message comes through when errors or
-- warnings are logged, whether or not the level of information is; otherwise its message comes twice,
-- when errors or fatal errors are logged.
pub construct_lem :
    (has_args made : Bool) (created : List ℕ) (mask : ℕ)
    → mask < 256
    → ((construct has_args made created).0 ≡ (has_args && made))
      × (passed mask (construct has_args made created).1 ≡ (
          if has_args && made
          then (if rb_log_enabled mask rb_log_level_error || rb_log_enabled mask rb_log_level_warn
              then 1
              else 0)
          else (if rb_log_enabled mask rb_log_level_fatal || rb_log_enabled mask rb_log_level_error
              then 2
              else 0)))
unfolding construct
construct_lem true true created mask h =
    rw (same_sound _ _ (holds_below-at _ 256 mask info_table h)) (refl, refl)
construct_lem true false created mask h =
    (refl, rw (same_sound _ _ (holds_below-at _ 256 mask err_table h)) (counted_twice _))
construct_lem false made created mask h =
    (refl, rw (same_sound _ _ (holds_below-at _ 256 mask err_table h)) (counted_twice _))

-- ===== src/Scheduler/Liveness.antt =====
-- src/scheduler/dmmr_scheduler.c: a pass of the reorder thread and then one of the thread that checks
-- and sends.
use dmmr_orbit.Base.{◌⊎◌, List, [], ◌∷◌, ◌≡◌}
use dmmr_orbit.Node.{Node}
use dmmr_orbit.Scheduler.{Scheduler}

module _ {A : Type 0} where
  -- An element of a list.
  abbrev pub In : A → List A → Type 0
  In x [] = ⊥
  In x (y ∷ ys) = (x ≡ y) ⊎ In x ys

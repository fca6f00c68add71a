-- ===== src/Exception/Tests.antt =====
-- A failed allocation under a mask of fatal errors only.
use dmmr_orbit.Base.{true, false, ◌≡◌, arith}
use dmmr_orbit.Base.Codes.{codes}
use dmmr_orbit.Exception.{construct}
use dmmr_orbit.Exception.Levels.{passed, construct_lem}

construct_example :
    ((construct true false (codes "Scheduler criado")).0 ≡ false)
    × (passed 1 (construct true false (codes "Scheduler criado")).1 ≡ 2)
construct_example = construct_lem true false (codes "Scheduler criado") 1 (omega arith)

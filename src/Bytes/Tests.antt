-- ===== src/Bytes/Tests.antt =====
-- The byte routines on a memory whose byte at an address is the address.
use dmmr_orbit.Base.{◌+◌, ◌%◌, ◌≡◌, inl, arith}
use dmmr_orbit.Bytes.{Memory, moved}
use dmmr_orbit.Bytes.Copy.{vcpy, vcpy-moved}
use dmmr_orbit.Bytes.Move.{bcpy, bcpy-moved}
use dmmr_orbit.Bytes.Fill.{mset, mset-filled, filled}

abbrev ramp : Memory
ramp x = x

abbrev shifted_ramp : Memory
shifted_ramp x = x + 1

-- An overlapping move of 40 bytes up by three, which runs backward.
bcpy-moved_example : bcpy ramp 1000 1003 40 1005 ≡ moved 40 ramp 1003 1000 1005
bcpy-moved_example = bcpy-moved ramp 1000 1003 40 1005

vcpy-moved_example : vcpy ramp 1000 1005 40 1010 ≡ moved 40 ramp 1000 1005 1010
vcpy-moved_example =
    vcpy-moved ramp 1000 1005 40 (omega arith) (omega arith) (inl (omega arith)) 1010

mset-filled_example : mset ramp 1001 0x1FF 200 1100 ≡ filled 200 ramp 1001 (0x1FF % 256) 1100
mset-filled_example = mset-filled ramp 1001 0x1FF 200 1100

-- ===== src/Pm86/Tests.antt =====
-- Tests of the copy.
use hausboot.Base.{◌≡◌}
use hausboot.Pm86.Copy.{Memory, copy_memory32, moved, copy_memory32-moved}

abbrev memory : Memory
memory i = i

-- An overlapping move by one byte upwards.
copy_memory32-moved_example : copy_memory32 memory 11 10 4 14 ≡ moved memory 11 10 4 14
copy_memory32-moved_example = copy_memory32-moved memory 11 10 4 14

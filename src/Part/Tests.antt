-- ===== src/Part/Tests.antt =====
-- Tests of the disk addresses.
use hausboot.Part.BiosDevice.{open_device, Serves, load_sector-disk}
use hausboot.Base.{
  ℕ, ◌+◌, ◌-◌, ◌*◌, ◌/◌, ◌%◌, ◌≤◌, ◌<◌, ◌≡◌, refl, true, false, ◌&&◌, Option, none, some, List, [],
  ◌∷◌, arith, ltb, leb, if◌then◌else◌,
}
use hausboot.Part.ChsPacked.{ChsPacked, sector, head}
use hausboot.Part.BiosDisk.{
  ReadCall, DriveGeometry, IsGeometry, lba_to_chs, chs_to_lba, chs_to_lba-lba_to_chs,
  cylinder_of_cx, drive_parameters,
}

abbrev floppy : DriveGeometry
floppy = record { cylinders = 80; heads_per_cylinder = 2; sectors_per_track = 18 }

abbrev floppy-IsGeometry : IsGeometry floppy
floppy-IsGeometry = record {
  heads = omega arith;
  heads_le = omega arith;
  sectors = omega arith;
  sectors_lt = omega arith;
}

chs_to_lba-lba_to_chs_example :
    (chs_to_lba floppy (lba_to_chs floppy 100) ≡ 100)
    × (1 ≤ sector (lba_to_chs floppy 100))
    × (sector (lba_to_chs floppy 100) ≤ 18)
    × (head (lba_to_chs floppy 100) < 2)
chs_to_lba-lba_to_chs_example = chs_to_lba-lba_to_chs floppy 100 floppy-IsGeometry (omega arith)

abbrev address : ChsPacked
address = record { lo = 1; mid = 0x85; hi = 0x12 }

drive_parameters_run :
    drive_parameters false 0x4f12 0x0100
    ≡ some (record { cylinders = 80; heads_per_cylinder = 2; sectors_per_track = 18 })
unfolding drive_parameters
drive_parameters_run = refl

-- A disk whose sectors hold their numbers, and a BIOS that serves it within the geometry and
-- reports an error for all else.
abbrev disk : ℕ → Option (List ℕ)
disk i = some (i ∷ [])

abbrev sector_of : ReadCall → ℕ
sector_of call =
    (cylinder_of_cx call.cx * floppy.heads_per_cylinder + call.dx / 256) * floppy.sectors_per_track
    + (call.cx % 64 - 1)

abbrev service : ReadCall → Option (List ℕ)
service call =
    if ltb (call.dx / 256) 2 && (leb 1 (call.cx % 64) && leb (call.cx % 64) 18)
    then disk (sector_of call)
    else none

service-Serves : Serves service floppy 128 disk
service-Serves call e e' head_lt from to =
    let inside : (ltb (call.dx / 256) 2 && (leb 1 (call.cx % 64) && leb (call.cx % 64) 18)) ≡ true =
      ground arith in
    rw inside refl

load_sector-disk_example : (open_device service floppy 128 63).load_sector 37 ≡ disk 100
load_sector-disk_example =
    load_sector-disk service floppy 128 63 37 disk service-Serves floppy-IsGeometry (omega arith)
      (omega arith) (omega arith)

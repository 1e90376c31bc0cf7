-- ===== src/Part/BiosDevice.antt =====
-- include/BIOS/BIOSBlockDevice.h: a partition of a BIOS disk as a block device. What the BIOS does
-- is a parameter: the carry flag and the registers behind the service for the drive's parameters,
-- and from the registers of a read to the sector, `none` where it reports an error.
use hausboot.Base.{
  ℕ, ◌+◌, ◌-◌, ◌*◌, ◌/◌, ◌%◌, ◌^◌, ◌≤◌, ◌<◌, ◌≡◌, ap, ◌∙◌, Bool, Option, none, some, List, arith,
}
use hausboot.Device.{BlockDevice}
use hausboot.Part.ChsPacked.{head, cylinder}
use hausboot.Part.BiosDisk.{
  DriveGeometry, lba_to_chs, ReadCall, load_sectors, drive_parameters, IsGeometry,
  chs_to_lba-lba_to_chs, lba_to_chs-IsPacked, cylinder_of_cx, load_sectors_registers,
}

-- The constructor; `none` where `IsInitialized` is false.
pub open_device : (ReadCall → Option (List ℕ)) → DriveGeometry → ℕ → ℕ → BlockDevice
open_device service g drive part_start = record {
  load_sector =
      λ index. service (load_sectors drive (lba_to_chs g ((part_start + index) % 2 ^ 32)) 1);
  sector_size = 512;
}

pub bios_block_device : (ReadCall → Option (List ℕ)) → Bool → ℕ → ℕ → ℕ → ℕ → Option BlockDevice
bios_block_device service carry cx dx drive part_start = elim (drive_parameters carry cx dx) [
  | none ↦ none
  | some g ↦ some (open_device service g drive part_start)
]

-- What the BIOS's documentation says of the service: a read of one sector of a drive, for a head
-- of the drive and a sector number from 1 up to that of a track, gives the sector that cylinder,
-- head and sector number in the registers stand for. Nothing is said of other heads and sectors.
abbrev pub Serves :
    (ReadCall → Option (List ℕ)) → DriveGeometry → ℕ → (ℕ → Option (List ℕ)) → Type 0
Serves service g drive disk =
    (call : ReadCall)
    → call.ax ≡ 513
    → call.dx % 256 ≡ drive
    → call.dx / 256 < g.heads_per_cylinder
    → 1 ≤ call.cx % 64
    → call.cx % 64 ≤ g.sectors_per_track
    → service call
      ≡ disk (
          (cylinder_of_cx call.cx * g.heads_per_cylinder + call.dx / 256) * g.sectors_per_track
          + (call.cx % 64 - 1))

-- On a BIOS that serves reads within the geometry of the drive as documented, and for sectors
-- below the end of the 1024th cylinder, `LoadSector` asks for reads within the geometry only, and
-- so gives the sectors of the disk from the partition's start on.
pub load_sector-disk :
    (service : ReadCall → Option (List ℕ)) (g : DriveGeometry) (drive part_start i : ℕ)
    → (disk : ℕ → Option (List ℕ)) → Serves service g drive disk
    → IsGeometry g
    → drive < 256
    → part_start + i < 2 ^ 32
    → part_start + i < 1024 * (g.heads_per_cylinder * g.sectors_per_track)
    → (open_device service g drive part_start).load_sector i ≡ disk (part_start + i)
unfolding open_device
load_sector-disk service g drive part_start i disk serves geo small lt lt' =
    let lba = (part_start + i) % 2 ^ 32 in
    let same : lba ≡ part_start + i = omega arith in
    let c = lba_to_chs g lba in
    let (cyl, sec, dx, ax) =
      load_sectors_registers drive c 1 (lba_to_chs-IsPacked g lba) small (omega arith) in
    let (back, from, to, head_lt) = chs_to_lba-lba_to_chs g lba geo (omega arith) in
    let call = load_sectors drive c 1 in
    let heads = g.heads_per_cylinder in
    let sectors = g.sectors_per_track in
    let head_eq : call.dx / 256 ≡ head c = omega arith in
    serves call ax (omega arith) (omega arith) (omega arith) (omega arith)
    ∙ ap disk (
        ap (λ (n : ℕ). (n * heads + call.dx / 256) * sectors + (call.cx % 64 - 1)) cyl
        ∙ ap (λ (n : ℕ). (cylinder c * heads + n) * sectors + (call.cx % 64 - 1)) head_eq
        ∙ ap (λ (n : ℕ). (cylinder c * heads + head c) * sectors + (n - 1)) sec
        ∙ back
        ∙ same)

-- ===== src/Part/BiosDisk.antt =====
-- include/BIOS/BiosDisk.h: drive geometry, and the registers of the disk services. The
-- interrupt itself is the BIOS's; what is modelled is what goes into it and what is read back.
use hausboot.Base.{
  ℕ, ◌+◌, ◌-◌, ◌*◌, ◌/◌, ◌%◌, ◌^◌, ◌≤◌, ◌<◌, bit_and, bit_or, ◌≡◌, refl, sym, ◌≢◌, Bool, true,
  false, Option, none, some, arith, if◌then◌else◌,
}
use native.Mathlib.Nat.{div-lt_iff_lt-mul, div-div-eq-div-mul, div-add-mod', mul_comm}
use hausboot.Base.Bits.{bit_and_ones, bit_or_join, bit_and_shifted}
use hausboot.Part.ChsPacked.{
  ChsPacked, IsPacked, head, set_head, sector, set_sector, cylinder, set_cylinder, zero_address,
  set_sector_fields, set_cylinder_fields, set_cylinder-IsPacked, set_head-IsPacked,
  set_sector-IsPacked, bit_and_high, cylinder-sum, sector-mod,
}

pub record DriveGeometry : Type 0 where
  pub cylinders : ℕ
  pub heads_per_cylinder : ℕ
  pub sectors_per_track : ℕ

-- `LBA2CHS`. The cylinder is cut to the `uint16_t` of `SetCylinder`, the head and the sector to
-- the `uint8_t` of theirs.
pub lba_to_chs : DriveGeometry → ℕ → ChsPacked
lba_to_chs g lba =
    let c =
      set_cylinder zero_address (lba / (g.heads_per_cylinder * g.sectors_per_track % 2 ^ 32)) in
    let h = set_head c (lba / g.sectors_per_track % g.heads_per_cylinder) in
    set_sector h (lba % g.sectors_per_track + 1)

-- The registers of a read: the two counts and addresses of `LoadSectors`.
pub record ReadCall : Type 0 where
  pub ax : ℕ
  pub cx : ℕ
  pub dx : ℕ

pub load_sectors : ℕ → ChsPacked → ℕ → ReadCall
load_sectors drive source count = record {
  ax = bit_or 0x0200 count;
  cx =
      bit_or (bit_or (cylinder source * 2 ^ 8) (bit_and (cylinder source) 0x0300 / 2 ^ 2))
        (sector source)
      % 2 ^ 16;
  dx = bit_or (head source * 2 ^ 8) drive;
}

-- `ReadDriveParameters`, from the carry flag and the registers that the service leaves.
unfoldable pub drive_parameters : Bool → ℕ → ℕ → Option DriveGeometry
drive_parameters carry cx dx =
    if carry
    then none
    else some (record {
      cylinders = bit_or (bit_and cx 0x0c0 * 2 ^ 2) (bit_and (cx / 2 ^ 8) 0x0ff) + 1;
      heads_per_cylinder = bit_and (dx / 2 ^ 8) 0x0ff + 1;
      sectors_per_track = bit_and cx 0x3f;
    })

-- A geometry that the BIOS can describe.
pub record IsGeometry (g : DriveGeometry) : Type 0 where
  pub heads : 0 < g.heads_per_cylinder
  pub heads_le : g.heads_per_cylinder ≤ 256
  pub sectors : 0 < g.sectors_per_track
  pub sectors_lt : g.sectors_per_track < 64

zero_address-IsPacked : IsPacked zero_address
zero_address-IsPacked = omega arith

-- The fields of the address, for a sector below the 1024 cylinders that it can name.
pub lba_to_chs_fields :
    (g : DriveGeometry) (lba : ℕ)
    → IsGeometry g
    → lba < 1024 * (g.heads_per_cylinder * g.sectors_per_track)
    → (cylinder (lba_to_chs g lba) ≡ lba / (g.heads_per_cylinder * g.sectors_per_track))
      × (head (lba_to_chs g lba) ≡ lba / g.sectors_per_track % g.heads_per_cylinder)
      × (sector (lba_to_chs g lba) ≡ lba % g.sectors_per_track + 1)
unfolding lba_to_chs
lba_to_chs_fields g lba v h =
    let track = g.heads_per_cylinder * g.sectors_per_track in
    let small : track ≤ 256 * 64 = grind arith in
    let pos : 0 < track = grind arith in
    let low : lba / track < 1024 = (div-lt_iff_lt-mul {y = 1024} pos).1 h in
    let turn : lba / g.sectors_per_track % g.heads_per_cylinder < 256 = omega arith in
    let c = set_cylinder zero_address (lba / (track % 2 ^ 32)) in
    let d = set_head c (lba / g.sectors_per_track % g.heads_per_cylinder) in
    let c_ok : IsPacked c = set_cylinder-IsPacked _ _ zero_address-IsPacked in
    let d_ok : IsPacked d = set_head-IsPacked _ _ c_ok in
    let s = set_sector_fields d (lba % g.sectors_per_track + 1) d_ok in
    let y = set_cylinder_fields zero_address (lba / (track % 2 ^ 32)) zero_address-IsPacked in
    let unwrapped : track % 2 ^ 32 ≡ track = omega arith in
    let narrow : lba / (track % 2 ^ 32) ≡ lba / track = rw unwrapped refl in
    let same : cylinder d ≡ cylinder c = unfold cylinder set_head in refl in
    let kept : head d ≡ lba / g.sectors_per_track % g.heads_per_cylinder % 256 =
      unfold head set_head in refl in
    (omega arith, omega arith, omega arith)

pub lba_to_chs-IsPacked : (g : DriveGeometry) (lba : ℕ) → IsPacked (lba_to_chs g lba)
unfolding lba_to_chs
lba_to_chs-IsPacked g lba =
    set_sector-IsPacked _ _
      (set_head-IsPacked _ _ (set_cylinder-IsPacked _ _ zero_address-IsPacked))

-- The sector that a cylinder, head and sector address stands for.
abbrev pub chs_to_lba : DriveGeometry → ChsPacked → ℕ
chs_to_lba g c = (cylinder c * g.heads_per_cylinder + head c) * g.sectors_per_track + (sector c - 1)

mixed_radix : (lba h s : ℕ) → 0 < h → 0 < s → (lba / (h * s) * h + lba / s % h) * s + lba % s ≡ lba
mixed_radix lba h s hp sp =
    let e : lba / (h * s) ≡ lba / s / h = rw (mul_comm h s) (sym (div-div-eq-div-mul lba s h)) in
    rw (e, div-add-mod' (lba / s) h) (div-add-mod' lba s)

-- For a sector below the end of the 1024th cylinder, `LBA2CHS` loses nothing: the address leads
-- back to the sector, its sector number counts from 1, and head and sector lie within the
-- geometry.
pub chs_to_lba-lba_to_chs :
    (g : DriveGeometry) (lba : ℕ)
    → IsGeometry g
    → lba < 1024 * (g.heads_per_cylinder * g.sectors_per_track)
    → (chs_to_lba g (lba_to_chs g lba) ≡ lba)
      × (1 ≤ sector (lba_to_chs g lba))
      × (sector (lba_to_chs g lba) ≤ g.sectors_per_track)
      × (head (lba_to_chs g lba) < g.heads_per_cylinder)
chs_to_lba-lba_to_chs g lba v h =
    let (fc, fh, fs) = lba_to_chs_fields g lba v h in
    (
      rw (fc, fh, fs)
          (omega
            (arith, mixed_radix lba g.heads_per_cylinder g.sectors_per_track v.heads v.sectors)),
      omega (arith, fs),
      omega (arith, fs),
      omega (arith, fh),
    )

-- Cylinder and sector as the BIOS reads them from CX: CH has the cylinder's low eight bits, CL
-- its two high bits above the sector.
abbrev pub cylinder_of_cx : ℕ → ℕ
cylinder_of_cx cx = cx % 256 / 64 * 256 + cx / 256

cx_sum :
    (cyl s : ℕ)
    → cyl < 1024
    → s < 64
    → bit_or (bit_or (cyl * 2 ^ 8) (bit_and cyl 0x0300 / 2 ^ 2)) s % 2 ^ 16
      ≡ cyl % 256 * 256 + cyl / 256 * 64 + s
cx_sum cyl s hc hs =
    let high : bit_and cyl 0x0300 ≡ cyl / 256 * 256 =
      omega (arith, bit_and_shifted 8 cyl 3, bit_and_ones 2 (cyl / 256)) in
    let low : bit_or (cyl * 2 ^ 8) (cyl / 256 * 256 / 2 ^ 2) ≡ (cyl * 4 + cyl / 256) * 2 ^ 6 =
      omega (arith, bit_or_join 8 cyl (cyl / 256 * 256 / 2 ^ 2)) in
    rw (high, low) (omega (arith, bit_or_join 6 (cyl * 4 + cyl / 256) s))

-- The registers that `LoadSectors` passes name the given cylinder, head, sector, drive and count.
pub load_sectors_registers :
    (drive : ℕ) (c : ChsPacked) (count : ℕ)
    → IsPacked c
    → drive < 256
    → count < 256
    → (cylinder_of_cx (load_sectors drive c count).cx ≡ cylinder c)
      × ((load_sectors drive c count).cx % 64 ≡ sector c)
      × ((load_sectors drive c count).dx ≡ head c * 256 + drive)
      × ((load_sectors drive c count).ax ≡ 512 + count)
unfolding load_sectors
load_sectors_registers drive c count p hd hc =
    let y : cylinder c < 1024 = omega (arith, cylinder-sum c p) in
    let s : sector c < 64 = omega (arith, sector-mod c) in
    let e = cx_sum (cylinder c) (sector c) y s in
    (
      omega (arith, e),
      omega (arith, e),
      bit_or_join 8 (head c) drive (omega arith),
      bit_or_join 9 1 count (omega arith),
    )

-- A drive that answers with a sector count other than 0 has a geometry within the bounds that
-- `LBA2CHS` needs, with at most 1024 cylinders; one that reports an error has none.
pub drive_parameters-IsGeometry :
    (carry : Bool) (cx dx : ℕ) (g : DriveGeometry)
    → cx % 64 ≢ 0
    → drive_parameters carry cx dx ≡ some g
    → (carry ≡ false) × (1 ≤ g.cylinders) × (g.cylinders ≤ 1024) × IsGeometry g
unfolding drive_parameters
drive_parameters-IsGeometry true cx dx g ne e = cc
drive_parameters-IsGeometry false cx dx g ne e =
    let high : bit_and cx 0x0c0 ≡ cx / 64 % 4 * 64 = bit_and_high cx in
    let low = bit_and_ones 8 (cx / 2 ^ 8) in
    let heads = bit_and_ones 8 (dx / 2 ^ 8) in
    let track = bit_and_ones 6 cx in
    let join = bit_or_join 8 (cx / 64 % 4) (cx / 2 ^ 8 % 2 ^ 8) in
    ground (arith, high, low, heads, track, join)

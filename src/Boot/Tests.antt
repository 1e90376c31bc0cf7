-- ===== src/Boot/Tests.antt =====
-- Tests of the boot stages.
use hausboot.Base.{◌≡◌, refl, true, Option, some, [], ◌∷◌, arith, ◌==◌, if◌then◌else◌}
use hausboot.Types.FlagField
use hausboot.Part.ChsPacked.{zero_address}
use hausboot.Part.BiosDisk.{ReadCall}
use hausboot.Part.MbrEntry.{MbrEntry, mbr_words, is_bootable}
use hausboot.Boot.Stage2Header.{
  Words, sector_count, update_checksum, compute_checksum, sum_loop, verify,
  compute_checksum-update_checksum, set_bios_boot_drive, set_boot_mbr_entry,
}
use hausboot.Boot.Mbr.{
  Services, call_vbr, boot_magic, try_entry, mbr_main, Boots, mbr_main-Boots, Listed,
  mbr_main_calls,
}
use hausboot.Boot.Vbr.{Entered, enter, check, load_count, vbr_main, vbr_main-Entered}

-- One sector: the header and words that are 1.
abbrev image : Words
image i = if i == 0 then 0xD0D0CACA else if i == 1 then 7 else if i == 2 then 1 else 1

abbrev sealed : Words
sealed i = if i == 1 then 0x2F2F34B8 else image i

compute_checksum-update_checksum_example : compute_checksum (update_checksum image) ≡ 0
unfolding sector_count
compute_checksum-update_checksum_example = compute_checksum-update_checksum image (omega arith)

-- The checksum that makes the image sum to zero.
verify-sealed : verify sealed 1 ≡ true
unfolding verify sector_count compute_checksum sum_loop
verify-sealed = refl

abbrev unused : MbrEntry
unused = record {
  attrib = 0;
  chs_start = zero_address;
  kind = 0;
  chs_end = zero_address;
  lba_start = 0;
  count = 0;
}

abbrev active : MbrEntry
active = record unused { attrib = 0x80; lba_start = 1; count = 1 }

abbrev signed : Words
signed i = if i == 127 then 0xAA550000 else 0

abbrev bios : Services
bios = record { reset = λ drive. true; read = λ call. some signed }

mbr_main-Boots_example :
    Boots bios 128 (unused ∷ active ∷ []) (mbr_main bios 128 (unused ∷ active ∷ []))
mbr_main-Boots_example = mbr_main-Boots bios 128 (unused ∷ active ∷ [])

mbr_main_run : mbr_main bios 128 (unused ∷ active ∷ []) ≡ call_vbr active signed
unfolding mbr_main try_entry is_bootable boot_magic FlagField.is_set
mbr_main_run = refl

mbr_main_calls_example :
    Listed active (unused ∷ active ∷ [])
    × (is_bootable active ≡ true)
    × (true ≡ true)
    × (some signed ≡ some signed)
    × (boot_magic signed ≡ 0xAA55)
mbr_main_calls_example = mbr_main_calls bios 128 (unused ∷ active ∷ []) active signed mbr_main_run

abbrev read_image : ReadCall → Option Words
read_image call = some sealed

abbrev entered : Words
entered = set_boot_mbr_entry (set_bios_boot_drive sealed 128) (mbr_words active)

vbr_main_run : vbr_main read_image 3 128 active ≡ enter entered
unfolding vbr_main load_count check verify sector_count compute_checksum sum_loop
vbr_main_run = refl

vbr_main-Entered_example : Entered read_image 3 128 active entered
vbr_main-Entered_example =
    vbr_main-Entered read_image 3 128 active entered (omega arith, omega arith, omega arith)
      vbr_main_run

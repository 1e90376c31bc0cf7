-- ===== src/Boot/Vbr.antt =====
-- vbr/vbr.cpp: the boot sector of the partition, which loads stage 2.
use hausboot.Base.{
  ℕ, zero, suc, ◌+◌, ◌-◌, ◌/◌, ◌%◌, ◌^◌, ◌≤◌, ◌<◌, ◌≡◌, refl, ap, ◌∙◌, inl, inr, true, Option, none,
  some, arith, ltb, if◌then◌else◌, Bool-cases,
}
use hausboot.Part.ChsPacked.{
  ChsPacked, IsPacked, head, sector, cylinder, set_sector, set_sector_fields,
}
use hausboot.Part.BiosDisk.{ReadCall, load_sectors}
use hausboot.Part.MbrEntry.{MbrEntry, mbr_words}
use hausboot.Boot.Stage2Header.{Words, verify, set_bios_boot_drive, set_boot_mbr_entry, put_word}

-- How it ends: by a message, after which it hangs, or with stage 2 in memory.
pub data Outcome : Type 0 where
  load_failed broken : Outcome
  enter : Words → Outcome

-- How many sectors are loaded for so many reserved ones, from three on.
unfoldable pub load_count : ℕ → ℕ
load_count reserved = if ltb 30 (reserved - 2) then 30 else reserved - 2

-- What follows the read.
unfoldable pub check : ℕ → ℕ → (ℕ → ℕ) → Option Words → Outcome
check drive count entry none = load_failed
check drive count entry (some image) =
    if verify image count
    then enter (set_boot_mbr_entry (set_bios_boot_drive image drive) entry)
    else broken

-- `main`. What a read of sectors puts into memory is a parameter.
unfoldable pub vbr_main : (ReadCall → Option Words) → ℕ → ℕ → MbrEntry → Outcome
vbr_main read reserved drive part =
    if ltb reserved 3
    then load_failed
    else (let count = load_count reserved in
        let src = set_sector part.chs_start (sector part.chs_start + 2) in
        check drive count (mbr_words part) (read (load_sectors drive src count)))

check_enter :
    (drive count : ℕ) (entry : ℕ → ℕ) (got : Option Words) (image' : Words)
    → check drive count entry got ≡ enter image'
    → (image : Words) × (got ≡ some image)
      × (verify image count ≡ true)
      × (image' ≡ set_boot_mbr_entry (set_bios_boot_drive image drive) entry)
unfolding check
check_enter drive count entry none image' e = cc
check_enter drive count entry (some image) image' e = elim (Bool-cases (verify image count)) [
  | inl good ↦
      let q : enter (set_boot_mbr_entry (set_bios_boot_drive image drive) entry) ≡ enter image' =
        rw good at e in
      (image, refl, good, cc)
  | inr bad ↦ cc (rw bad at e)
]

entry_words :
    (w : Words) (entry : ℕ → ℕ) (i : ℕ) → i < 4 → set_boot_mbr_entry w entry (3 + i) ≡ entry i
unfolding set_boot_mbr_entry put_word
entry_words w entry zero h = refl
entry_words w entry (suc zero) h = refl
entry_words w entry (suc (suc zero)) h = refl
entry_words w entry (suc (suc (suc zero))) h = refl
entry_words w entry (suc (suc (suc (suc i)))) h = absurd (omega arith)

-- The two setters change one byte of the third word, and the four words behind it.
handed_over :
    (image : Words) (drive : ℕ) (entry : ℕ → ℕ) (image' : Words)
    → image' ≡ set_boot_mbr_entry (set_bios_boot_drive image drive) entry
    → ((i : ℕ) → i < 2 → image' i ≡ image i)
      × (image' 2 % 2 ^ 16 ≡ image 2 % 2 ^ 16)
      × (image' 2 / 2 ^ 16 % 2 ^ 8 ≡ drive % 2 ^ 8)
      × (image' 2 / 2 ^ 24 ≡ image 2 / 2 ^ 24)
      × ((i : ℕ) → 7 ≤ i → image' i ≡ image i)
unfolding set_boot_mbr_entry set_bios_boot_drive put_word
handed_over image drive entry image' e =
    rw e (λ i h. ground arith, ground arith, ground arith, ground arith, λ i h. ground arith)

abbrev stage2_source : MbrEntry → ChsPacked
stage2_source part = set_sector part.chs_start (sector part.chs_start + 2)

vbr_main_run :
    (read : ReadCall → Option Words) (reserved drive : ℕ) (part : MbrEntry) (out : Words)
    → vbr_main read reserved drive part ≡ enter out
    → (3 ≤ reserved)
      × (check drive
            (load_count reserved)
            (mbr_words part)
            (read (load_sectors drive (stage2_source part) (load_count reserved)))
          ≡ enter out)
unfolding vbr_main
vbr_main_run read reserved drive part out e = elim (Bool-cases (ltb reserved 3)) [
  | inl few ↦ cc (rw few at e)
  | inr many ↦ (ground arith, rw many at e)
]

load_count_bounds :
    (reserved : ℕ)
    → 3 ≤ reserved
    → (0 < load_count reserved) × (load_count reserved ≤ 30) × (2 + load_count reserved ≤ reserved)
unfolding load_count
load_count_bounds reserved h = ground arith

-- What the code of stage 2 finds in memory. It was read with one call, whose address is that of
-- the partition's start with a sector number that is two higher, cut to the six bits it has; the
-- count is at most 30 and at most what is reserved behind the first two sectors. The image was
-- verified. In its third word one byte is now the drive, the four words behind it are the
-- partition's entry, and all other words are as they were read.
pub record Entered (read : ReadCall → Option Words) (reserved drive : ℕ) (part : MbrEntry)
    (image' : Words) : Type 0 where
  pub loaded : ℕ
  pub image : Words
  pub source : ChsPacked
  pub loaded_pos : 0 < loaded
  pub loaded_le : loaded ≤ 30
  pub reserved_le : 2 + loaded ≤ reserved
  pub source_sector : sector source ≡ (sector part.chs_start + 2) % 64
  pub source_head : head source ≡ head part.chs_start
  pub source_cylinder : cylinder source ≡ cylinder part.chs_start
  pub was_read : read (load_sectors drive source loaded) ≡ some image
  pub verified : verify image loaded ≡ true
  pub front_kept : (i : ℕ) → i < 2 → image' i ≡ image i
  pub size_kept : image' 2 % 2 ^ 16 ≡ image 2 % 2 ^ 16
  pub drive_set : image' 2 / 2 ^ 16 % 2 ^ 8 ≡ drive % 2 ^ 8
  pub pad_kept : image' 2 / 2 ^ 24 ≡ image 2 / 2 ^ 24
  pub entry_set : (i : ℕ) → i < 4 → image' (3 + i) ≡ mbr_words part i
  pub code_kept : (i : ℕ) → 7 ≤ i → image' i ≡ image i

-- Where `main` enters stage 2, for an entry whose start address is of bytes: the image was read
-- with one call, of at least one and at most 30 sectors and no more than are reserved behind the
-- first two, from the entry's start address with a sector number two higher modulo 64. It was
-- verified, and was then changed in the byte for the drive and in the 16 bytes for the entry,
-- which hold the drive and the entry, and nowhere else.
pub vbr_main-Entered :
    (read : ReadCall → Option Words) (reserved drive : ℕ) (part : MbrEntry) (image' : Words)
    → IsPacked part.chs_start
    → vbr_main read reserved drive part ≡ enter image'
    → Entered read reserved drive part image'
vbr_main-Entered read reserved drive part image' packed e =
    let entry = mbr_words part in
    let (many, ran) = vbr_main_run read reserved drive part image' e in
    let (image, got, good, made) = check_enter drive (load_count reserved) entry _ image' ran in
    let (front_kept, size_kept, drive_set, pad_kept, code_kept) =
      handed_over image drive entry image' made in
    let (pos, le, within) = load_count_bounds reserved many in
    let (sec, cyl, hd) = set_sector_fields part.chs_start (sector part.chs_start + 2) packed in
    record {
      loaded = load_count reserved;
      image = image;
      source = stage2_source part;
      loaded_pos = pos;
      loaded_le = le;
      reserved_le = within;
      source_sector = sec;
      source_head = hd;
      source_cylinder = cyl;
      was_read = got;
      verified = good;
      front_kept = front_kept;
      size_kept = size_kept;
      drive_set = drive_set;
      pad_kept = pad_kept;
      entry_set = λ i h.
          ap (λ (w : Words). w (3 + i)) made
          ∙ entry_words (set_bios_boot_drive image drive) entry i h;
      code_kept = code_kept;
    }

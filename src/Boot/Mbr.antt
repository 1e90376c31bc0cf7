-- ===== src/Boot/Mbr.antt =====
-- mbr/mbr.cpp: the boot sector of the disk. The services of the BIOS are parameters: whether a
-- reset of the drive succeeds, and what a read of sectors puts into memory, as 32-bit words.
use hausboot.Base.{
  ℕ, ◌/◌, ◌^◌, ◌≡◌, sym, ap, ◌∙◌, ◌⊎◌, inl, inr, Bool, true, false, not, Option, none, some, List,
  [], ◌∷◌, ◌++◌, arith, ◌==◌, if◌then◌else◌, Bool-cases, Option-cases,
}
use hausboot.Part.BiosDisk.{ReadCall, load_sectors}
use hausboot.Part.MbrEntry.{MbrEntry, is_bootable}
use hausboot.Boot.Stage2Header.{Words}

pub record Services : Type 0 where
  pub reset : ℕ → Bool
  pub read : ReadCall → Option Words

-- How a boot sector ends: by a message, after which it hangs, or by a call of the boot sector
-- that was loaded.
pub data Outcome : Type 0 where
  reset_failed no_boot_part load_failed no_magic : Outcome
  call_vbr : MbrEntry → Words → Outcome

-- `bootSector[255]`
unfoldable pub boot_magic : Words → ℕ
boot_magic w = w 127 / 2 ^ 16

-- The body of the loop, from the first bootable entry on.
unfoldable pub try_entry : Services → ℕ → MbrEntry → Outcome
try_entry bios drive e =
    if not (bios.reset drive)
    then reset_failed
    else elim (bios.read (load_sectors drive e.chs_start 1)) [
      | none ↦ load_failed
      | some sector ↦ if boot_magic sector == 0xAA55 then call_vbr e sector else no_magic
    ]

-- `main`
unfoldable pub mbr_main : Services → ℕ → List MbrEntry → Outcome
mbr_main bios drive [] = no_boot_part
mbr_main bios drive (e ∷ entries) =
    let rest = mbr_main bios drive entries in if is_bootable e then try_entry bios drive e else rest

-- No entry is bootable.
abbrev pub NoneBootable : List MbrEntry → Type 0
NoneBootable [] = Unit {0}
NoneBootable (e ∷ entries) = (is_bootable e ≡ false) × NoneBootable entries

-- What `main` promises: its message, or the first bootable entry, whose sector was read and has
-- the magic number.
pub data Boots (bios : Services) (drive : ℕ) : List MbrEntry → Outcome → Type 0 where
  nothing : {entries : List MbrEntry} → NoneBootable entries → Boots bios drive entries no_boot_part
  tried :
      (before : List MbrEntry) (e : MbrEntry) (after : List MbrEntry)
      → NoneBootable before
      → is_bootable e ≡ true
      → Boots bios drive (before ++ e ∷ after) (try_entry bios drive e)

later-Boots :
    (bios : Services) (drive : ℕ) (e : MbrEntry) (entries : List MbrEntry) (out : Outcome)
    → is_bootable e ≡ false
    → Boots bios drive entries out
    → Boots bios drive (e ∷ entries) out
later-Boots bios drive e _ _ no_boot (nothing none_boot) = nothing (no_boot, none_boot)
later-Boots bios drive e _ _ no_boot (tried before e' after none_boot yes_boot) =
    tried (e ∷ before) e' after (no_boot, none_boot) yes_boot

-- `main` tries exactly the first bootable entry, and says so if there is none.
pub mbr_main-Boots :
    (bios : Services) (drive : ℕ) (entries : List MbrEntry)
    → Boots bios drive entries (mbr_main bios drive entries)
unfolding mbr_main
mbr_main-Boots bios drive [] = nothing tt
mbr_main-Boots bios drive (e ∷ entries) = elim (Bool-cases (is_bootable e)) [
  | inl y ↦ rw y (tried [] e entries tt y)
  | inr n ↦ rw n (later-Boots bios drive e entries _ n (mbr_main-Boots bios drive entries))
]

try_entry_calls :
    (bios : Services) (drive : ℕ) (f e : MbrEntry) (sector : Words)
    → try_entry bios drive f ≡ call_vbr e sector
    → (f ≡ e)
      × (bios.reset drive ≡ true)
      × (bios.read (load_sectors drive f.chs_start 1) ≡ some sector)
      × (boot_magic sector ≡ 0xAA55)
unfolding try_entry
try_entry_calls bios drive f e sector h = elim (Bool-cases (bios.reset drive)) [
  | inr no_reset ↦ cc (rw no_reset at h)
  | inl done ↦ elim (Option-cases (bios.read (load_sectors drive f.chs_start 1))) [
    | inl no_read ↦ cc (rw (done, no_read) at h)
    | inr (got, read) ↦ elim (Bool-cases (boot_magic got == 0xAA55)) [
      | inr bad ↦ cc (rw (done, read, bad) at h)
      | inl good ↦
          let q : call_vbr f got ≡ call_vbr e sector = rw (done, read, good) at h in
          let same : got ≡ sector = cc in
          (cc, done, read ∙ ap some same, ap boot_magic (sym same) ∙ ground arith)
    ]
  ]
]

-- An entry of a table.
abbrev pub Listed : MbrEntry → List MbrEntry → Type 0
Listed e [] = ⊥
Listed e (f ∷ entries) = (e ≡ f) ⊎ Listed e entries

-- Where `main` calls a boot sector, it is handed an entry of the table that is bootable, the drive
-- was reset, and the sector was read from that entry's start address and ends with the magic
-- number.
pub mbr_main_calls :
    (bios : Services) (drive : ℕ) (entries : List MbrEntry) (e : MbrEntry) (sector : Words)
    → mbr_main bios drive entries ≡ call_vbr e sector
    → Listed e entries
      × (is_bootable e ≡ true)
      × (bios.reset drive ≡ true)
      × (bios.read (load_sectors drive e.chs_start 1) ≡ some sector)
      × (boot_magic sector ≡ 0xAA55)
unfolding mbr_main try_entry
mbr_main_calls bios drive [] e sector h = cc
mbr_main_calls bios drive (f ∷ entries) e sector h = elim (Bool-cases (is_bootable f)) [
  | inr n ↦
      let (listed, boot, reset, got, magic) =
        mbr_main_calls bios drive entries e sector (rw n at h) in
      (inr listed, boot, reset, got, magic)
  | inl y ↦
      let (same, done, read, good) = try_entry_calls bios drive f e sector (rw y at h) in
      (
        inl (sym same),
        ap is_bootable (sym same) ∙ y,
        done,
        ap (λ (g : MbrEntry). bios.read (load_sectors drive g.chs_start 1)) (sym same) ∙ read,
        good,
      )
]

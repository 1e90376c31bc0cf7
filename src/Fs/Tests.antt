-- ===== src/Fs/Tests.antt =====
-- Tests of the file system.
use hausboot.Fs.FatDirent.Layout.{decode, encode}
use hausboot.Fs.FatDirent.Codec.{decode-encode}
use hausboot.Base.{
  ℕ, ◌≡◌, refl, sym, ap, ◌↔◌, inl, inr, true, not, some, List, [], ◌∷◌, ◌++◌, arith, ◌==◌,
  if◌then◌else◌, Bool-cases, length, replicate,
}
use hausboot.Device.{BlockDevice, IsDevice}
use hausboot.Types.FixedLengthString.{cstr}
use hausboot.Types.UnalignedInt.{le_value}
use hausboot.Fs.FatName.{is_valid_fat_char, is_short_name}
use hausboot.Fs.ShortName.{IsPart, Splits, is_short_name_iff, join}
use hausboot.Fs.FatDirent.{FatDirent, blank, name_at, name_to_string, set_name, set_extension}
use hausboot.Fs.FatDirent.NameString.{name_to_string_fits}
use hausboot.Fs.FatDirent.Copied.{IsTight}
use hausboot.Fs.FatDirent.RoundTrip.{name_to_string-set_name}
use hausboot.Fs.FatSuper.{FatSuper, cluster_index_to_sector}
use hausboot.Fs.FatFs.{FatFs, FatFile, no_index, bytes, read_at}
use hausboot.Fs.FatFs.Windows.{cluster_bytes, fat_entry, IsCoherent}
use hausboot.Fs.FatFs.ReadAt.{FileAt, stop, step, IsVolume, readable, read_at_lem}

is_short_name_iff_example :
    (is_short_name (b'A' ∷ b'.' ∷ b'C' ∷ []) ≡ true)
    ↔ ((base ext : List ℕ) × Splits (cstr (b'A' ∷ b'.' ∷ b'C' ∷ [])) base ext)
is_short_name_iff_example = is_short_name_iff (b'A' ∷ b'.' ∷ b'C' ∷ [])

abbrev buffer : List ℕ
buffer = replicate 13 0xCC

name_to_string_fits_example :
    (out : List ℕ) × (name_to_string blank buffer ≡ some (not (name_at blank 0 == b' '), out))
    × (length out ≡ 13)
name_to_string_fits_example = name_to_string_fits blank buffer refl

abbrev base : List ℕ
base = b'B' ∷ b'O' ∷ b'O' ∷ b'T' ∷ []

abbrev ext : List ℕ
ext = b'C' ∷ b'F' ∷ b'G' ∷ []

base-IsPart : IsPart base
unfolding is_valid_fat_char
base-IsPart = ((refl, refl), ((refl, refl), ((refl, refl), ((refl, refl), tt))))

base-IsTight : IsTight base
base-IsTight = ((λ e. absurd (omega (arith, e))), (λ e. absurd (omega (arith, e))))

ext-IsPart : IsPart ext
unfolding is_valid_fat_char
ext-IsPart = ((refl, refl), ((refl, refl), ((refl, refl), tt)))

ext-IsTight : IsTight ext
ext-IsTight = ((λ e. absurd (omega (arith, e))), (λ e. absurd (omega (arith, e))))

name_to_string-set_name_example :
    (rest : List ℕ) × (name_to_string (set_extension (set_name blank base) ext) buffer
      ≡ some (true, join base ext ++ 0 ∷ rest))
name_to_string-set_name_example =
    name_to_string-set_name blank base ext buffer base-IsPart base-IsTight (omega arith)
      (ext-IsPart, ext-IsTight, omega arith) refl

abbrev super : FatSuper
super = record {
  jump = 0;
  code_offset = 0;
  nop = 0;
  oem_name = [];
  bytes_per_sector = 8;
  sectors_per_cluster = 1;
  num_reserved_sectors = 1;
  num_fats = 1;
  total_sector_count = 5;
  sectors_per_fat = 2;
  root_dir_index = 2;
  fs_info_index = 0;
  boot_sec_copy_index = 0;
  boot_code = [];
}

-- The sector of the table that names clusters 2 and 3: 2 leads to 3, which ends the chain.
abbrev table : List ℕ
table = 3 ∷ 0 ∷ 0 ∷ 0 ∷ 255 ∷ 255 ∷ 255 ∷ 15 ∷ []

-- Every other sector is filled with its number.
abbrev disk : BlockDevice
disk = record { load_sector = λ i. some (if i == 2 then table else replicate 8 i); sector_size = 8 }

disk-IsDevice : IsDevice disk
disk-IsDevice = record {
  sector_length = λ i d e. elim (Bool-cases (i == 2)) [
    | inl at ↦
        let q : some table ≡ some d = rw at at e in let q' : table ≡ d = cc in ap length (sym q')
    | inr other ↦
        let q : some (replicate 8 i) ≡ some d = rw other at e in
        let q' : replicate 8 i ≡ d = cc in ap length (sym q')
  ];
  size_pos = omega arith;
}

abbrev volume : IsVolume disk super
volume = record { device = disk-IsDevice; cluster_pos = omega arith; fat_fits = omega arith }

abbrev fs : FatFs
fs = record {
  super = super;
  current_fat_sector = no_index;
  current_data_cluster = no_index;
  fat_window = replicate 8 0;
  data_window = replicate 8 0;
}

abbrev fs-IsCoherent : IsCoherent disk fs
fs-IsCoherent = record { fat_length = refl; data_length = refl; fat = inl refl; data_ok = inl refl }

cluster_two : cluster_bytes disk super 2 ≡ some (replicate 8 3)
unfolding cluster_index_to_sector
cluster_two = refl

cluster_three : cluster_bytes disk super 3 ≡ some (replicate 8 4)
unfolding cluster_index_to_sector
cluster_three = refl

entry_two : fat_entry disk super 2 ≡ some 3
unfolding le_value
entry_two = refl

entry_three : fat_entry disk super 3 ≡ some 0x0FFFFFFF
unfolding le_value
entry_three = refl

abbrev content : List ℕ
content = replicate 8 3 ++ replicate 8 4

content-FileAt : FileAt disk super 2 content
content-FileAt =
    step 3 (replicate 8 3) (replicate 8 4) (omega arith) (omega arith) cluster_two entry_two refl (
      step 0x0FFFFFFF (replicate 8 4) [] (omega arith) (omega arith) cluster_three entry_three refl
        (stop (omega arith) refl))

abbrev file : FatFile
file = record { cluster = 2; size = 14; flags = 0 }

read_at_lem_example :
    (fs' : FatFs) × (read_at disk 12 fs file 5 6
      ≡ (bytes (readable disk super volume file 5 6 content), fs'))
    × (fs'.super ≡ super)
    × IsCoherent disk fs'
read_at_lem_example =
    read_at_lem disk super volume 12 fs file 5 6 content content-FileAt refl fs-IsCoherent
      (omega arith)

-- The entry of a small file.
abbrev small_entry : FatDirent
small_entry = record {
  name = replicate 8 b'A';
  extension = replicate 3 b' ';
  flags = 0x20;
  unused = 0 ∷ 0 ∷ [];
  ctime_hms = 1;
  ctime_ymd = 2;
  atime_ymd = 3;
  cluster_index_high = 4;
  mtime_hms = 5;
  mtime_ymd = 6;
  cluster_index_low = 7;
  size = 70000;
}

small_entry_back : decode (encode small_entry) ≡ small_entry
small_entry_back = decode-encode small_entry (record {
  name_size = refl;
  extension_size = refl;
  flags_lt = omega arith;
  unused_size = refl;
  ctime_hms_lt = omega arith;
  ctime_ymd_lt = omega arith;
  atime_ymd_lt = omega arith;
  cluster_index_high_lt = omega arith;
  mtime_hms_lt = omega arith;
  mtime_ymd_lt = omega arith;
  cluster_index_low_lt = omega arith;
  size_lt = omega arith;
})

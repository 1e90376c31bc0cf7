-- ===== src/Fatedit/ImageTests.antt =====
-- Tests of directories and of the table on the image.
use hausboot.Base.{
  ℕ, ◌≡◌, refl, sym, ap, ◌∙◌, true, Option, some, List, [], ◌∷◌, ◌++◌, arith, length, replicate,
  length-replicate,
}
use hausboot.Base.Slice.{overwrite, length-overwrite}
use hausboot.Types.UnalignedInt.{le_value}
use hausboot.Fs.FatSuper.{FatSuper}
use hausboot.Fs.FatDirentLong.{fs_info_is_valid}
use hausboot.Fatedit.FatReader.{
  next_cluster_in_file, entry_value, count_free, num_free_clusters, find_free_loop,
  find_free_cluster, divides_by_zero, searched,
}
use hausboot.Fatedit.FileReader.{open_reader}
use hausboot.Fatedit.FileReader.Reads.{IsImage}
use hausboot.Fatedit.Directory.{scan_directory}
use hausboot.Fatedit.Directory.Scan.{Ends, Counts, scan_directory-Counts}
use hausboot.Fatedit.Memory.{write_memory, write_memory_run, memory, memory-IsLawful}
use hausboot.Fatedit.Table.{
  decode_fs_info, table_offset, table_size, info_offset, Loaded, guard, is_place, load_from_image,
  write_copies, update_info, write_to_image,
}
use hausboot.Fatedit.Table.Codec.{length-update_info}
use hausboot.Fatedit.Table.RoundTrip.{Fits, Updated, load_from_image-write_to_image}

-- A disk of six sectors of 512 bytes, of which two are reserved and one has the table.
abbrev disk : FatSuper
disk = record {
  jump = 0;
  code_offset = 0;
  nop = 0;
  oem_name = [];
  bytes_per_sector = 512;
  sectors_per_cluster = 1;
  num_reserved_sectors = 2;
  num_fats = 1;
  total_sector_count = 6;
  sectors_per_fat = 1;
  root_dir_index = 2;
  fs_info_index = 1;
  boot_sec_copy_index = 0;
  boot_code = [];
}

abbrev zero_image : ℕ → ℕ → Option (List ℕ)
zero_image offset size = some (replicate size 0)

zero_image-IsImage : IsImage zero_image
zero_image-IsImage = λ offset size b e.
    (let q : replicate size 0 ≡ b = cc in ap length (sym q) ∙ length-replicate size 0)

scan_directory-Counts_example :
    Ends
      (Counts (replicate 512 255) disk zero_image zero_image-IsImage 64)
      (scan_directory (replicate 512 255) disk zero_image (open_reader 2 64))
scan_directory-Counts_example =
    scan_directory-Counts (replicate 512 255) disk zero_image zero_image-IsImage 2 64

abbrev table : List ℕ
table = replicate 508 255 ++ replicate 4 0

abbrev info : List ℕ
info =
    0x52
    ∷ 0x52
    ∷ 0x61
    ∷ 0x41
    ∷ (replicate 480 0 ++ 0x72 ∷ 0x72 ∷ 0x41 ∷ 0x61 ∷ (replicate 20 0 ++ 0 ∷ 0 ∷ 0x55 ∷ 0xAA ∷ []))

abbrev loaded : Loaded
loaded = record { raw = table; info = info }

decoded : fs_info_is_valid (decode_fs_info info) ≡ true
unfolding fs_info_is_valid decode_fs_info le_value
decoded = refl

abbrev before : List ℕ
before = replicate 1536 0

abbrev after : List ℕ
after = overwrite (overwrite before 1024 table) 512 (update_info memory disk info 0x0FFFFFFF8 1)

first_write : write_memory before 1024 table ≡ some (overwrite before 1024 table)
first_write = write_memory_run before 1024 table (omega arith)

second_write :
    write_memory (overwrite before 1024 table) 512 (update_info memory disk info 0x0FFFFFFF8 1)
    ≡ some after
second_write =
    write_memory_run (overwrite before 1024 table) 512 (update_info memory disk info 0x0FFFFFFF8 1)
      (omega (
        arith,
        length-update_info memory disk info 0x0FFFFFFF8 1 refl,
        length-overwrite before 1024 table (omega arith),
      ))

none_free : find_free_cluster table disk ≡ some 0x0FFFFFFF8
unfolding find_free_cluster divides_by_zero find_free_loop searched next_cluster_in_file entry_value
none_free = refl

one_counted : num_free_clusters table ≡ some 1
unfolding num_free_clusters count_free next_cluster_in_file entry_value
one_counted = refl

written : write_to_image memory disk loaded before ≡ some after
unfolding write_to_image write_copies table_offset info_offset guard is_place
written = rw (first_write, none_free, one_counted, second_write) refl

loaded-Fits : Fits memory memory-IsLawful disk loaded
unfolding table_size table_offset info_offset decode_fs_info le_value
loaded-Fits = record {
  raw_size = refl;
  info_size = refl;
  valid = decoded;
  info_fits = record {
    magic1_lt = omega arith;
    magic2_lt = omega arith;
    free_clusters_lt = omega arith;
    next_free_cluster_lt = omega arith;
    magic3_lt = omega arith;
  };
  some_copy = omega arith;
  index_lt = omega arith;
  apart = omega arith;
  room = omega arith;
  count_lt = omega arith;
}

load_from_image-write_to_image_example :
    (l' : Loaded) × (load_from_image memory disk after ≡ some l')
    × Updated memory memory-IsLawful disk loaded l'
load_from_image-write_to_image_example =
    load_from_image-write_to_image memory memory-IsLawful disk loaded before after loaded-Fits
      written

-- ===== src/Fatedit/WriterTests.antt =====
-- Tests of what the image editor writes.
use hausboot.Base.{ℕ, ◌<◌, ◌≡◌, refl, sym, ◌∙◌, ◌≢◌, some, List, [], ◌∷◌, ◌++◌, arith, replicate}
use hausboot.Fs.FatSuper.{FatSuper}
use hausboot.Fatedit.Outcome.{ok}
use hausboot.Fatedit.FatReader.{
  next_cluster_in_file, entry_value, set_entry, set_bytes, searched, find_free_loop,
  find_free_cluster, divides_by_zero, allocate_cluster, allocate_cluster_after,
}
use hausboot.Fatedit.FileReader.{
  FileReader, open_reader, got, read, cluster_size, cluster_file_offset,
}
use hausboot.Fatedit.FileWriter.{
  FileWriter, World, space_available, created, create_writer, link, extend, count, put, again,
  append_loop, append,
}
use hausboot.Fs.FatSuper.{cluster_index_to_sector}
use hausboot.Fatedit.FileWriter.Appends.{Ends, append-Appends}
use hausboot.Fatedit.FileWriter.Links.{IsDisk, IsTable}
use hausboot.Fatedit.FileWriter.Disk.{IsSmall, IsSmall-IsDisk}
use hausboot.Fatedit.FileWriter.ReadBack.{read-append}
use hausboot.Fatedit.Memory.{read_memory, write_memory, memory, memory-IsLawful}

-- A disk of seven sectors of eight bytes: the reserved one, a table of two, and four clusters'
-- numbers, of which 2 and 3 are free.
abbrev disk : FatSuper
disk = record {
  jump = 0;
  code_offset = 0;
  nop = 0;
  oem_name = [];
  bytes_per_sector = 8;
  sectors_per_cluster = 1;
  num_reserved_sectors = 1;
  num_fats = 1;
  total_sector_count = 7;
  sectors_per_fat = 2;
  root_dir_index = 2;
  fs_info_index = 0;
  boot_sec_copy_index = 0;
  boot_code = [];
}

abbrev table : List ℕ
table = 0xF8 ∷ 255 ∷ 255 ∷ 15 ∷ 255 ∷ 255 ∷ 255 ∷ 15 ∷ 0 ∷ 0 ∷ 0 ∷ 0 ∷ 0 ∷ 0 ∷ 0 ∷ 0 ∷ []

searched-disk : searched disk ≡ 4
unfolding searched
searched-disk = refl

disk-IsSmall : IsSmall disk
disk-IsSmall = record {
  sectors_pos = omega arith;
  bytes_pos = omega arith;
  in_range = omega (arith, searched-disk);
  end_lt = omega (arith, searched-disk);
}

disk-IsDisk : IsDisk disk
disk-IsDisk = IsSmall-IsDisk disk disk-IsSmall (omega (arith, searched-disk))

first_entry : next_cluster_in_file table 0 ≡ some 0x0FFFFFF8
unfolding next_cluster_in_file entry_value
first_entry = refl

second_entry : next_cluster_in_file table 1 ≡ some 0x0FFFFFFF
unfolding next_cluster_in_file entry_value
second_entry = refl

some_ne : (a b : ℕ) → b < a → some a ≢ some b
some_ne a b lt e = let q : a ≡ b = cc in absurd (omega arith)

table-IsTable : IsTable disk table
table-IsTable = record {
  covers = omega (arith, searched-disk);
  first_used = λ e. some_ne 0x0FFFFFF8 0 (omega arith) (sym first_entry ∙ e);
  second_used = λ e. some_ne 0x0FFFFFFF 0 (omega arith) (sym second_entry ∙ e);
}

abbrev empty_world : World memory
empty_world = record { raw = table; image = replicate 56 0 }

-- Ten bytes, which take two clusters.
abbrev text : List ℕ
text = 10 ∷ 11 ∷ 12 ∷ 13 ∷ 14 ∷ 15 ∷ 16 ∷ 17 ∷ 18 ∷ 19 ∷ []

abbrev new_writer : FileWriter
new_writer = record { cluster = 2; offset = 0; first_cluster = 2; total_size = 0 }

abbrev new_world : World memory
new_world = record { raw = set_entry table 2 0x0FFFFFF8; image = replicate 56 0 }

made : create_writer memory disk empty_world ≡ ok (new_writer, new_world)
unfolding create_writer created allocate_cluster find_free_cluster divides_by_zero find_free_loop
    searched next_cluster_in_file entry_value
made = refl

abbrev last_writer : FileWriter
last_writer = record { cluster = 3; offset = 2; first_cluster = 2; total_size = 10 }

abbrev last_world : World memory
last_world = record {
  raw = set_entry (set_entry (set_entry table 2 0x0FFFFFF8) 3 0x0FFFFFF8) 2 3;
  image = replicate 24 0 ++ text ++ replicate 22 0;
}

ran : append memory disk new_writer new_world text ≡ ok (last_writer, last_world)
unfolding append append_loop again extend link put count space_available cluster_size
    cluster_file_offset cluster_index_to_sector allocate_cluster_after allocate_cluster
    find_free_cluster divides_by_zero find_free_loop searched next_cluster_in_file entry_value
    set_entry set_bytes write_memory
ran = refl

read-append_example :
    (r : FileReader) × (read last_world.raw disk
        (read_memory last_world.image)
        (open_reader 2 10)
        10
      ≡ got text r)
read-append_example =
    read-append memory memory-IsLawful disk disk-IsDisk empty_world new_world last_world new_writer
      last_writer text table-IsTable (omega arith) made ran

append-Appends_example :
    Ends memory disk new_writer new_world text (append memory disk new_writer new_world text)
append-Appends_example =
    append-Appends memory disk new_writer new_world text (disk-IsDisk).size_pos (omega arith)

-- ===== src/Stage2/BootTests.antt =====
-- Tests of `main`: a boot from a disk with a configuration file and a kernel.
use hausboot.Device.{BlockDevice}
use hausboot.Pm86.Copy.{Memory}
use hausboot.Part.BiosDisk.{DriveGeometry}
use hausboot.Base.{
  ℕ, ◌≡◌, refl, false, Option, none, some, if◌then◌else◌, ◌==◌, List, [], ◌∷◌, replicate,
}
use hausboot.Stage2.Main.{
  Loader, boot, Boot, no_device, no_a20, no_memory_map, no_config, too_big, unreadable, no_kernel,
  starving, jumps,
}
use hausboot.Fs.FatName.{is_short_name}
use hausboot.Fs.FatSuper.{FatSuper}
use hausboot.Fs.FatFs.{FatFs}
use hausboot.Stage2.Main
use hausboot.Stage2.Kernel.{
  word, look, scan_words, go_on, scan_buffer, search_loop, mb_find_header, copy_part, copy_loop,
  clear_bss, mb_load_kernel, header_of,
}
use hausboot.Stage2.Script
use hausboot.Fs.FatFs.{
  bytes_per_cluster, root_dir, load_loop, load_data_cluster, load_fat_sector, read_fat_index,
  read_loop, read_at, file_of, entry_matches, scan_entries, find_loop, find_in_directory, is_slash,
  skip_slashes, take_component, path_loop, find_by_path, init,
}
use hausboot.Fs.FatSuper.{cluster_index_to_sector}
use hausboot.Fs.FatDirent.{
  cluster_index, is_dummied_out, is_last_in_list, put, copy_chars, trim_end, put_extension,
  name_to_string,
}
use hausboot.Fs.FatDirent.Layout.{decode}
use hausboot.Types.UnalignedInt.{le_value}
use hausboot.Types.FixedLengthString.{cstr, at}
use hausboot.StringUtil.{str_equal, is_space, is_alnum}
use hausboot.Types.FlagField
use hausboot.MultiBoot.Header.{is_valid, extract_mem_layout, fit_in_file, bss_size}

abbrev memory : Memory
memory i = 0

-- A disk with sectors of 64 bytes: the table, the root directory with two entries, the
-- configuration file with the line "multiboot K", and the kernel, which is a header and code.
abbrev table_sector : List ℕ
table_sector =
    248
    ∷ 255
    ∷ 255
    ∷ 15
    ∷ 255
    ∷ 255
    ∷ 255
    ∷ 15
    ∷ 248
    ∷ 255
    ∷ 255
    ∷ 15
    ∷ 248
    ∷ 255
    ∷ 255
    ∷ 15
    ∷ 248
    ∷ 255
    ∷ 255
    ∷ 15
    ∷ replicate 44 0

abbrev root_sector : List ℕ
root_sector =
    66 ∷ 79 ∷ 79 ∷ 84 ∷ 32 ∷ 32 ∷ 32 ∷ 32 ∷ 67 ∷ 70 ∷ 71 ∷ 32 ∷ 0 ∷ 0 ∷ 0 ∷ 0 ∷ 0 ∷ 0 ∷ 0 ∷ 0 ∷ 0
    ∷ 0 ∷ 0 ∷ 0 ∷ 0 ∷ 0 ∷ 3 ∷ 0 ∷ 12 ∷ 0 ∷ 0 ∷ 0 ∷ 75 ∷ 32 ∷ 32 ∷ 32 ∷ 32 ∷ 32 ∷ 32 ∷ 32 ∷ 32 ∷ 32
    ∷ 32 ∷ 32 ∷ 0 ∷ 0 ∷ 0 ∷ 0 ∷ 0 ∷ 0 ∷ 0 ∷ 0 ∷ 0 ∷ 0 ∷ 0 ∷ 0 ∷ 0 ∷ 0 ∷ 4 ∷ 0 ∷ 40 ∷ 0 ∷ 0 ∷ 0 ∷ []

abbrev config_sector : List ℕ
config_sector = 109 ∷ 117 ∷ 108 ∷ 116 ∷ 105 ∷ 98 ∷ 111 ∷ 111 ∷ 116 ∷ 32 ∷ 75 ∷ 10 ∷ replicate 52 0

abbrev kernel_sector : List ℕ
kernel_sector =
    2
    ∷ 176
    ∷ 173
    ∷ 27
    ∷ 0
    ∷ 0
    ∷ 1
    ∷ 0
    ∷ 254
    ∷ 79
    ∷ 81
    ∷ 228
    ∷ 0
    ∷ 0
    ∷ 16
    ∷ 0
    ∷ 0
    ∷ 0
    ∷ 16
    ∷ 0
    ∷ 40
    ∷ 0
    ∷ 16
    ∷ 0
    ∷ 48
    ∷ 0
    ∷ 16
    ∷ 0
    ∷ 32
    ∷ 0
    ∷ 16
    ∷ 0
    ∷ 144
    ∷ 144
    ∷ 144
    ∷ 144
    ∷ 144
    ∷ 144
    ∷ 144
    ∷ 144
    ∷ replicate 24 0

abbrev kernel_disk : BlockDevice
kernel_disk = record {
  load_sector = λ i. some (
      if i == 1
      then table_sector
      else if i == 2
      then root_sector
      else if i == 3
      then config_sector
      else if i == 4
      then kernel_sector
      else replicate 64 0);
  sector_size = 64;
}

abbrev super : FatSuper
super = record {
  jump = 0;
  code_offset = 0;
  nop = 0;
  oem_name = [];
  bytes_per_sector = 64;
  sectors_per_cluster = 1;
  num_reserved_sectors = 1;
  num_fats = 1;
  total_sector_count = 5;
  sectors_per_fat = 1;
  root_dir_index = 2;
  fs_info_index = 0;
  boot_sec_copy_index = 0;
  boot_code = [];
}

abbrev loader : Loader
loader = record {
  fs = init kernel_disk super (replicate 64 0) (replicate 64 0);
  memory = memory;
  have_kernel = false;
  kernel_entry = 0;
  starved = false;
}

abbrev geometry : DriveGeometry
geometry = record { cylinders = 80; heads_per_cylinder = 2; sectors_per_track = 18 }

-- What the stack holds.
abbrev stack : FatFs → ℕ → List ℕ
stack fs i = replicate 13 0

abbrev whole : ℕ → ℕ
whole n = n

-- Where a boot jumps to.
abbrev jump_of : Boot → Option ℕ
jump_of no_device = none
jump_of no_a20 = none
jump_of no_memory_map = none
jump_of no_config = none
jump_of too_big = none
jump_of unreadable = none
jump_of no_kernel = none
jump_of starving = none
jump_of (jumps entry info array l) = some entry

booted :
    jump_of (boot kernel_disk stack 20 0x8000 [] geometry 63 whole 0 0x9000 [] loader)
    ≡ some 0x100020
unfolding Main.reads Main.kernel_loaded Main.header_found Main.file_found Main.cmd_multiboot
    Main.call Main.cmd_echo Main.cmd_info Main.run_kernel Main.run_config Main.load_config Main.boot
    word look scan_words go_on scan_buffer search_loop mb_find_header copy_part copy_loop clear_bss
    mb_load_kernel header_of Script.split_line Script.skip_while Script.take_while Script.parse_line
    Script.is_known Script.proceed Script.run_line Script.run_loop Script.run_script
    bytes_per_cluster root_dir load_loop load_data_cluster load_fat_sector read_fat_index read_loop
    read_at file_of entry_matches scan_entries find_loop find_in_directory is_slash skip_slashes
    take_component path_loop find_by_path init cluster_index_to_sector cluster_index is_dummied_out
    is_last_in_list put copy_chars trim_end put_extension name_to_string decode le_value cstr at
    str_equal is_space is_alnum FlagField.is_set FlagField.set is_valid extract_mem_layout
    fit_in_file bss_size is_short_name
booted = refl

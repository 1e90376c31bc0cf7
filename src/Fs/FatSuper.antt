-- ===== src/Fs/FatSuper.antt =====
-- include/fs/FatSuper.h: the super block. A packed integer is held by its value, and the padding
-- fields, which no operation reads or writes, are left out.
pub mod Clusters
pub mod Layout
use hausboot.Base.{
  ℕ, ◌+◌, ◌-◌, ◌*◌, ◌%◌, ◌^◌, min, List, ◌++◌, leb, if◌then◌else◌, length, set, take, drop,
}
use hausboot.Types.FixedLengthString

pub record FatSuper : Type 0 where
  pub jump : ℕ
  pub code_offset : ℕ
  pub nop : ℕ
  pub oem_name : List ℕ
  pub bytes_per_sector : ℕ
  pub sectors_per_cluster : ℕ
  pub num_reserved_sectors : ℕ
  pub num_fats : ℕ
  pub total_sector_count : ℕ
  pub sectors_per_fat : ℕ
  pub root_dir_index : ℕ
  pub fs_info_index : ℕ
  pub boot_sec_copy_index : ℕ
  pub boot_code : List ℕ

-- `SetTotalSectorCount`, `SetSectorsPerFat`, `SetFsInfoIndex` and `SetBackupIndex`
pub set_total_sector_count : FatSuper → ℕ → FatSuper
set_total_sector_count s count = record s { total_sector_count = count % 2 ^ 32 }

pub set_sectors_per_fat : FatSuper → ℕ → FatSuper
set_sectors_per_fat s count = record s { sectors_per_fat = count % 2 ^ 32 }

pub set_fs_info_index : FatSuper → ℕ → FatSuper
set_fs_info_index s value = record s { fs_info_index = value % 2 ^ 16 }

pub set_backup_index : FatSuper → ℕ → FatSuper
set_backup_index s value = record s { boot_sec_copy_index = value % 2 ^ 16 }

-- The size of the boot code, and its offset in the block.
abbrev pub boot_code_size : ℕ
boot_code_size = 420

abbrev pub boot_code_offset : ℕ
boot_code_offset = 90

-- `_introJump.SetEntryPoint`: a short jump over the parameters, to `entry` in the boot code. The
-- offset is stored in a byte.
pub set_entry_point : FatSuper → ℕ → FatSuper
set_entry_point s entry = record s {
  jump = 0xeb;
  code_offset = (boot_code_offset - 2 + min entry boot_code_size) % 2 ^ 8;
  nop = 0x90;
}

-- `SetBootCode`: the bytes that fit are copied over the old ones.
pub set_boot_code : FatSuper → List ℕ → ℕ → FatSuper
unfolding set_entry_point
set_boot_code s code entry =
    let size = min (length code) boot_code_size in
    set_entry_point (record s { boot_code = take size code ++ drop size s.boot_code }) entry

pub set_oem_name : FatSuper → List ℕ → FatSuper
set_oem_name s name = record s { oem_name = FixedLengthString.set 8 b' ' name }

-- `ClusterIndex2Sector`, in 32-bit arithmetic.
unfoldable pub cluster_index_to_sector : FatSuper → ℕ → ℕ
cluster_index_to_sector s n =
    let first = (s.num_reserved_sectors + s.num_fats * s.sectors_per_fat) % 2 ^ 32 in
    if leb n 2 then first else ((n - 2) * s.sectors_per_cluster + first) % 2 ^ 32

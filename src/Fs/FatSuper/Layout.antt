-- ===== src/Fs/FatSuper/Layout.antt =====
-- include/fs/FatSuper.h: the super block in the 512 bytes of its sector.
use hausboot.Base.{ℕ, List, ◌∷◌, ◌++◌}
use hausboot.Types.UnalignedInt
use hausboot.Types.UnalignedInt.{le_value}
use hausboot.Fs.FatDirent.Layout.{field}
use hausboot.Fs.FatSuper.{FatSuper}

-- The super block in a sector's bytes.
pub decode_super : List ℕ → FatSuper
decode_super raw = record {
  jump = le_value (field raw 0 1);
  code_offset = le_value (field raw 1 1);
  nop = le_value (field raw 2 1);
  oem_name = field raw 3 8;
  bytes_per_sector = le_value (field raw 11 2);
  sectors_per_cluster = le_value (field raw 13 1);
  num_reserved_sectors = le_value (field raw 14 2);
  num_fats = le_value (field raw 16 1);
  total_sector_count = le_value (field raw 32 4);
  sectors_per_fat = le_value (field raw 36 4);
  root_dir_index = le_value (field raw 44 4);
  fs_info_index = le_value (field raw 48 2);
  boot_sec_copy_index = le_value (field raw 50 2);
  boot_code = field raw 90 420;
}

-- The block's bytes, where `raw` has the fields that are not modelled.
pub encode_super : FatSuper → List ℕ → List ℕ
encode_super s raw =
    s.jump
    ∷ s.code_offset
    ∷ s.nop
    ∷ (s.oem_name
        ++ (UnalignedInt.set 2 s.bytes_per_sector
            ++ (s.sectors_per_cluster
                ∷ (UnalignedInt.set 2 s.num_reserved_sectors
                    ++ (s.num_fats
                        ∷ (field raw 17 15
                            ++ (UnalignedInt.set 4 s.total_sector_count
                                ++ (UnalignedInt.set 4 s.sectors_per_fat
                                    ++ (field raw 40 4
                                        ++ (UnalignedInt.set 4 s.root_dir_index
                                            ++ (UnalignedInt.set 2 s.fs_info_index
                                                ++ (UnalignedInt.set 2 s.boot_sec_copy_index
                                                    ++ (field raw 52 38
                                                        ++ (s.boot_code
                                                            ++ field raw 510 2))))))))))))))

-- ===== src/Fatedit/Table.antt =====
-- tools/fatedit.cpp, `FatReader::LoadFromImage` and `WriteToImage`: the table and the sector with
-- the free clusters, from the image and back.
pub mod Codec
pub mod RoundTrip
use hausboot.Base.{
  ℕ, zero, suc, ◌+◌, ◌*◌, ◌%◌, ◌^◌, Bool, true, false, ◌||◌, Option, none, some, List, ◌++◌, ltb,
  leb, ◌==◌, if◌then◌else◌, length, set,
}
use hausboot.Base.Options.{◌>>=◌}
use hausboot.Types.UnalignedInt
use hausboot.Types.UnalignedInt.{le_value}
use hausboot.Fs.FatDirent.Layout.{field}
use hausboot.Fs.FatSuper.{FatSuper}
use hausboot.Fs.FatDirentLong.{
  FatFsInfo, fs_info_is_valid, set_next_free_cluster, set_num_free_cluster,
}
use hausboot.Fatedit.Outcome.{Image}
use hausboot.Fatedit.FatReader.{find_free_cluster, num_free_clusters}

-- `FatFsInfo` in the bytes of its sector.
unfoldable pub decode_fs_info : List ℕ → FatFsInfo
decode_fs_info raw = record {
  magic1 = le_value (field raw 0 4);
  magic2 = le_value (field raw 484 4);
  free_clusters = le_value (field raw 488 4);
  next_free_cluster = le_value (field raw 492 4);
  magic3 = le_value (field raw 508 4);
}

-- Its bytes, where `raw` has the reserved ones.
unfoldable pub encode_fs_info : FatFsInfo → List ℕ → List ℕ
encode_fs_info f raw =
    UnalignedInt.set 4 f.magic1
    ++ (field raw 4 480
        ++ (UnalignedInt.set 4 f.magic2
            ++ (UnalignedInt.set 4 f.free_clusters
                ++ (UnalignedInt.set 4 f.next_free_cluster
                    ++ (field raw 496 12 ++ UnalignedInt.set 4 f.magic3)))))

-- Where the table starts, its size, and where the other sector starts, in 32 bits. The two
-- offsets are of type `int`.
unfoldable pub table_offset : FatSuper → ℕ
table_offset s = s.num_reserved_sectors * s.bytes_per_sector % 2 ^ 32

unfoldable pub table_size : FatSuper → ℕ
table_size s = s.sectors_per_fat * s.bytes_per_sector % 2 ^ 32

unfoldable pub info_offset : FatSuper → ℕ
info_offset s = s.fs_info_index * s.bytes_per_sector % 2 ^ 32

-- The object with its two members: the table and the bytes of the other sector.
pub record Loaded : Type 0 where
  pub raw : List ℕ
  pub info : List ℕ

-- An exception where a test fails.
unfoldable pub guard : Bool → Option (Unit {0})
guard true = some tt
guard false = none

-- Whether an `int` is an offset for so many bytes. From 2 ^ 31 on it is negative, and `ReadAt` and
-- `WriteAt`, which take it as an offset of 64 bits, throw since no file has such a place, unless
-- there is nothing to transfer.
unfoldable pub is_place : ℕ → ℕ → Bool
is_place offset size = size == 0 || ltb offset (2 ^ 31)

module _ (I : Image) (s : FatSuper) where
  -- `LoadFromImage`; `none` for an exception.
  unfoldable pub load_from_image : I.State → Option Loaded
  load_from_image image = if leb s.num_reserved_sectors s.fs_info_index then none else (do
    _ ← guard (is_place (info_offset s) 512)
    info ← I.read_at image (info_offset s) 512
    _ ← guard (fs_info_is_valid (decode_fs_info info))
    _ ← guard (is_place (table_offset s) (table_size s))
    raw ← I.read_at image (table_offset s) (table_size s)
    some (record { raw = raw; info = info }))

  -- The loop of `WriteToImage` over the copies of the table.
  unfoldable pub write_copies : ℕ → ℕ → List ℕ → I.State → Option I.State
  write_copies zero offset raw image = some image
  write_copies (suc left) offset raw image = do
    _ ← guard (is_place offset (length raw))
    image ← I.write_at image offset raw
    write_copies left ((offset + length raw) % 2 ^ 32) raw image

  -- The bytes of the sector after `SetNextFreeCluster` and `SetNumFreeCluster`.
  unfoldable pub update_info : List ℕ → ℕ → ℕ → List ℕ
  update_info info next count =
      encode_fs_info (set_num_free_cluster (set_next_free_cluster (decode_fs_info info) next) count)
        info

  -- `WriteToImage`
  unfoldable pub write_to_image : Loaded → I.State → Option I.State
  write_to_image l image = do
    image ← write_copies s.num_fats (table_offset s) l.raw image
    next ← find_free_cluster l.raw s
    count ← num_free_clusters l.raw
    _ ← guard (is_place (info_offset s) 512)
    I.write_at image (info_offset s) (update_info l.info next count)

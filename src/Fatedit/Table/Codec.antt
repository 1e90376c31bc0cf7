-- ===== src/Fatedit/Table/Codec.antt =====
-- include/fs/FatFsInfo.h: the bytes of the sector with the free clusters.
use hausboot.Base.{ℕ, ◌+◌, ◌^◌, ◌<◌, ◌≡◌, refl, ap, ◌∙◌, List, ◌++◌, arith, length, length-append}
use hausboot.Base.Slice.{slice, slice-skip, slice-front, slice_all, length-slice}
use hausboot.Types.UnalignedInt.{le_value, le_value-set, length-set}
use hausboot.Types.UnalignedInt
use hausboot.Fs.FatSuper.{FatSuper}
use hausboot.Fs.FatDirentLong.{FatFsInfo}
use hausboot.Fatedit.Outcome.{Image}
use hausboot.Fatedit.Table.{decode_fs_info, encode_fs_info, update_info}

-- What stands behind a packed integer of four bytes, and behind the reserved bytes.
word-skip :
    (v : ℕ) (r : List ℕ) (start size : ℕ)
    → slice (4 + start) size (UnalignedInt.set 4 v ++ r) ≡ slice start size r
word-skip v r start size = slice-skip (UnalignedInt.set 4 v) r 4 start size (length-set 4 v)

word-value :
    (v : ℕ) (r : List ℕ) → v < 2 ^ 32 → le_value (slice 0 4 (UnalignedInt.set 4 v ++ r)) ≡ v
word-value v r h =
    ap le_value (slice-front (UnalignedInt.set 4 v) r 4 (length-set 4 v)) ∙ le_value-set 4 v h

-- The fields of the sector fit their 32 bits.
pub record InfoFits (f : FatFsInfo) : Type 0 where
  pub magic1_lt : f.magic1 < 2 ^ 32
  pub magic2_lt : f.magic2 < 2 ^ 32
  pub free_clusters_lt : f.free_clusters < 2 ^ 32
  pub next_free_cluster_lt : f.next_free_cluster < 2 ^ 32
  pub magic3_lt : f.magic3 < 2 ^ 32

-- The sector's fields are read back from the bytes that they are stored as.
pub decode-encode_fs_info :
    (f : FatFsInfo) (raw : List ℕ)
    → length raw ≡ 512
    → InfoFits f
    → decode_fs_info (encode_fs_info f raw) ≡ f
unfolding decode_fs_info encode_fs_info
decode-encode_fs_info f raw len fit =
    let gap : (start size : ℕ) (r : List ℕ)
        → slice (480 + start) size (slice 4 480 raw ++ r) ≡ slice start size r =
      λ start size r.
        slice-skip (slice 4 480 raw) r 480 start size (length-slice 4 480 raw (omega arith)) in
    let gap' : (start size : ℕ) (r : List ℕ)
        → slice (12 + start) size (slice 496 12 raw ++ r) ≡ slice start size r =
      λ start size r.
        slice-skip (slice 496 12 raw) r 12 start size (length-slice 496 12 raw (omega arith)) in
    rw
      (
        word-value f.magic1 _ fit.magic1_lt,
        word-skip f.magic1 _ 480 4,
        gap 0 4 _,
        word-value f.magic2 _ fit.magic2_lt,
        word-skip f.magic1 _ 484 4,
        gap 4 4 _,
        word-skip f.magic2 _ 0 4,
        word-value f.free_clusters _ fit.free_clusters_lt,
        word-skip f.magic1 _ 488 4,
        gap 8 4 _,
        word-skip f.magic2 _ 4 4,
        word-skip f.free_clusters _ 0 4,
        word-value f.next_free_cluster _ fit.next_free_cluster_lt,
        word-skip f.magic1 _ 504 4,
        gap 24 4 _,
        word-skip f.magic2 _ 20 4,
        word-skip f.free_clusters _ 16 4,
        word-skip f.next_free_cluster _ 12 4,
        gap' 0 4 _,
        slice_all (UnalignedInt.set 4 f.magic3) 4 (length-set 4 f.magic3),
        le_value-set 4 f.magic3 fit.magic3_lt,
      )
      refl

pub length-encode_fs_info :
    (f : FatFsInfo) (raw : List ℕ) → length raw ≡ 512 → length (encode_fs_info f raw) ≡ 512
unfolding encode_fs_info
length-encode_fs_info f raw len = omega (
  arith,
  length-append (UnalignedInt.set 4 f.magic1) _,
  length-append (slice 4 480 raw) _,
  length-append (UnalignedInt.set 4 f.magic2) _,
  length-append (UnalignedInt.set 4 f.free_clusters) _,
  length-append (UnalignedInt.set 4 f.next_free_cluster) _,
  length-append (slice 496 12 raw) (UnalignedInt.set 4 f.magic3),
  length-slice 4 480 raw (omega arith),
  length-slice 496 12 raw (omega arith),
  length-set 4 f.magic1,
  length-set 4 f.magic2,
  length-set 4 f.free_clusters,
  length-set 4 f.next_free_cluster,
  length-set 4 f.magic3,
)

pub length-update_info :
    (I : Image) (s : FatSuper) (info : List ℕ) (next count : ℕ)
    → length info ≡ 512
    → length (update_info I s info next count) ≡ 512
unfolding update_info
length-update_info I s info next count len = length-encode_fs_info _ info len

-- ===== src/Fatedit/FileWriter.antt =====
-- tools/fatedit.cpp, `FileWriter`: it appends to the cluster chain of a file. The two global
-- objects that it changes, the table and the image, are passed along.
pub mod Appends
pub mod Chain
pub mod Links
pub mod Keeps
pub mod ReadBack
pub mod Disk
use hausboot.Base.{
  ℕ, zero, suc, ◌+◌, ◌-◌, ◌*◌, ◌%◌, ◌^◌, min, ◌||◌, Option, none, some, List, ltb, leb, ◌==◌,
  if◌then◌else◌, length, take, drop,
}
use hausboot.Fs.FatSuper.{FatSuper}
use hausboot.Fatedit.Outcome.{Outcome, ok, thrown, stuck, ◌>>=◌, or_throw, Image}
use hausboot.Fatedit.FatReader.{next_cluster_in_file, allocate_cluster, allocate_cluster_after}
use hausboot.Fatedit.FileReader.{cluster_file_offset, cluster_size}

pub record FileWriter : Type 0 where
  pub cluster : ℕ
  pub offset : ℕ
  pub first_cluster : ℕ
  pub total_size : ℕ

-- The table and the image.
pub record World (I : Image) : Type 0 where
  pub raw : List ℕ
  pub image : I.State

-- `SpaceAvailable`, a `size_t`.
unfoldable pub space_available : FatSuper → FileWriter → ℕ
space_available s w = (cluster_size s + 2 ^ 64 - w.offset) % 2 ^ 64

-- The loop of the constructor for a file that is there: the last cluster, and the bytes in it.
pub walk : List ℕ → ℕ → ℕ → ℕ → ℕ → Outcome (ℕ × ℕ)
walk raw zero cs cluster size = stuck
walk raw (suc fuel) cs cluster size =
    let again = (do
      ent ← or_throw (next_cluster_in_file raw cluster)
      if ltb ent 2 || leb 0x0FFFFFF8 ent then thrown else walk raw fuel cs ent (size - cs)) in
    if ltb cs size then again else ok (cluster, size)

-- The constructor for a file that is there.
pub open_writer : List ℕ → FatSuper → ℕ → ℕ → Outcome FileWriter
open_writer raw s idx size = do
  (cluster, left) ← walk raw (suc size) (cluster_size s) idx size
  ent ← or_throw (next_cluster_in_file raw cluster)
  (if ltb ent 0x0FFFFFF8
      then thrown
      else ok (record { cluster = cluster; offset = left; first_cluster = idx; total_size = size }))

module _ (I : Image) (s : FatSuper) where
  -- The constructor for a new file, from the cluster that was allocated.
  unfoldable pub created : World I → Option (ℕ × List ℕ) → Outcome (FileWriter × World I)
  created w none = thrown
  created w (some (c, raw)) = ok (
    record { cluster = c; offset = 0; first_cluster = c; total_size = 0 },
    record w { raw = raw },
  )

  unfoldable pub create_writer : World I → Outcome (FileWriter × World I)
  create_writer w = created w (allocate_cluster w.raw s)

  -- The cluster is full: the next one is linked behind it.
  unfoldable pub link : FileWriter → World I → Option (ℕ × List ℕ) → Option (FileWriter × World I)
  link f w none = none
  link f w (some (c, raw)) = some (record f { cluster = c; offset = 0 }, record w { raw = raw })

  unfoldable pub extend : FileWriter → World I → Option (FileWriter × World I)
  extend f w = link f w (allocate_cluster_after w.raw s f.cluster)

  -- The bytes went to the place behind the last ones.
  unfoldable pub count : FileWriter → World I → ℕ → Option I.State → Option (FileWriter × World I)
  count f w size none = none
  count f w size (some image) = some (
    record f { offset = (f.offset + size) % 2 ^ 32; total_size = (f.total_size + size) % 2 ^ 32 },
    record w { image = image },
  )

  unfoldable pub put : FileWriter → World I → List ℕ → Option (FileWriter × World I)
  put f w b =
      count f w (length b) (I.write_at w.image (cluster_file_offset s f.cluster + f.offset) b)

  -- What a round leads to.
  unfoldable pub again :
      Option (FileWriter × World I)
      → (FileWriter → World I → Outcome (FileWriter × World I))
      → Outcome (FileWriter × World I)
  again none k = thrown
  again (some (f, w)) k = k f w

  -- The loop of `Append`.
  unfoldable pub append_loop : ℕ → FileWriter → World I → List ℕ → Outcome (FileWriter × World I)
  append_loop zero f w bytes = stuck
  append_loop (suc fuel) f w bytes =
      let diff = min (space_available s f) (length bytes) in
      let full = again (extend f w) (λ f w. append_loop fuel f w bytes) in
      let room =
        again (put f w (take diff bytes)) (λ f w. append_loop fuel f w (drop diff bytes)) in
      if length bytes == 0 then ok (f, w) else if diff == 0 then full else room

  -- `Append`: of two rounds at least one writes a byte.
  unfoldable pub append : FileWriter → World I → List ℕ → Outcome (FileWriter × World I)
  append f w bytes = append_loop (suc (2 * length bytes)) f w bytes

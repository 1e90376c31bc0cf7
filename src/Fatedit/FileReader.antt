-- ===== src/Fatedit/FileReader.antt =====
-- tools/fatedit.cpp, `FileReader` and `MatchCommand`. The bytes of the image are a parameter: from
-- an offset and a size to as many bytes, `none` for an exception.
pub mod Reads
pub mod Follows
use hausboot.Base.{
  ℕ, zero, suc, ◌+◌, ◌-◌, ◌*◌, ◌%◌, ◌^◌, ◌||◌, Option, none, some, List, [], ◌∷◌, ◌++◌, ltb, leb,
  ◌==◌, if◌then◌else◌, length,
}
use hausboot.Fs.FatSuper.{FatSuper, cluster_index_to_sector}
use hausboot.Fatedit.FatReader.{next_cluster_in_file}
use hausboot.Fatedit.Util.{isspace}

pub record FileReader : Type 0 where
  pub cluster : ℕ
  pub offset : ℕ
  pub size : ℕ
  pub total_read : ℕ

-- The constructor.
unfoldable pub open_reader : ℕ → ℕ → FileReader
open_reader idx size = record { cluster = idx; offset = 0; size = size; total_read = 0 }

-- `FatReader::ClusterFileOffset`: the product has 32 bits.
unfoldable pub cluster_file_offset : FatSuper → ℕ → ℕ
cluster_file_offset s index = cluster_index_to_sector s index * s.bytes_per_sector % 2 ^ 32

-- `FatReader::BytesPerCluster`
unfoldable pub cluster_size : FatSuper → ℕ
cluster_size s = s.sectors_per_cluster * s.bytes_per_sector % 2 ^ 32

-- `DataLeftInCluster`
pub data_left_in_cluster : FatSuper → FileReader → ℕ
data_left_in_cluster s r =
    let avail = if ltb r.offset (cluster_size s) then cluster_size s - r.offset else 0 in
    if ltb avail r.size then avail else r.size

-- The end of `NextCluster`, from the table's entry.
pub follow_entry : FileReader → Option ℕ → Option FileReader
follow_entry r none = none
follow_entry r (some ent) =
    if ltb ent 2 || leb 0x0FFFFFF8 ent
    then some (record r { offset = 0; size = 0; cluster = 0 })
    else some (record r { offset = 0; cluster = ent })

-- `NextCluster`
pub next_cluster : List ℕ → FileReader → Option FileReader
next_cluster raw r =
    if r.size == 0
    then some (record r { offset = 0; cluster = 0 })
    else follow_entry r (next_cluster_in_file raw r.cluster)

-- What a read ends with: the bytes and the reader, an exception, or no fuel left.
pub data Read : Type 0 where
  got : List ℕ → FileReader → Read
  thrown : Read
  stuck : Read

pub prefix : List ℕ → Read → Read
prefix b (got c r) = got (b ++ c) r
prefix b thrown = thrown
prefix b stuck = stuck

module _ (raw : List ℕ) (s : FatSuper) (image : ℕ → ℕ → Option (List ℕ)) where
  -- The transfer of `diff` bytes in one round of `Read`.
  pub transfer : FileReader → ℕ → ℕ → (FileReader → ℕ → Read) → Read
  transfer r size left again =
      let diff = if ltb size left then size else left in
      elim (image (cluster_file_offset s r.cluster + r.offset) diff) [
        | none ↦ thrown
        | some b ↦
            prefix b
              (again (record r { offset = r.offset + diff; size = r.size - diff }) (size - diff))
      ]

  -- Behind `NextCluster`.
  pub advance : Option FileReader → ℕ → (FileReader → ℕ → Read) → Read
  advance none size again = thrown
  advance (some r) size again =
      if data_left_in_cluster s r == 0
      then got [] r
      else transfer r size (data_left_in_cluster s r) again

  -- The loop of `Read`.
  pub read_loop : ℕ → FileReader → ℕ → Read
  read_loop zero r size = stuck
  read_loop (suc fuel) r size =
      let left = data_left_in_cluster s r in
      let here = transfer r size left (read_loop fuel) in
      let there = advance (next_cluster raw r) size (read_loop fuel) in
      if size == 0 then got [] r else if left == 0 then there else here

  -- The end of `Read`, which counts the bytes.
  pub count_read : Read → Read
  count_read (got b r) = got b (record r { total_read = r.total_read + length b })
  count_read thrown = thrown
  count_read stuck = stuck

  -- `Read`: every round takes at least one byte.
  pub read : FileReader → ℕ → Read
  read r size = count_read (read_loop (suc size) r size)

-- `strncmp` with the whole of `cmd`, and what stands behind it.
pub strip_prefix : List ℕ → List ℕ → Option (List ℕ)
strip_prefix [] str = some str
strip_prefix (c ∷ cmd) [] = none
strip_prefix (c ∷ cmd) (d ∷ str) = let rest = strip_prefix cmd str in if c == d then rest else none

-- The spaces behind a command, dropped.
pub drop_spaces : List ℕ → List ℕ
drop_spaces [] = []
drop_spaces (c ∷ str) = let rest = drop_spaces str in if isspace c then rest else c ∷ str

-- Behind the command's name.
pub match_end : Option (List ℕ) → Option (List ℕ)
match_end none = none
match_end (some []) = some []
match_end (some (c ∷ str)) = if isspace c then some (drop_spaces (c ∷ str)) else none

-- `MatchCommand`: what is left of the line, `none` for the result `false`.
pub match_command : List ℕ → List ℕ → Option (List ℕ)
match_command str cmd = match_end (strip_prefix cmd str)

-- ===== src/Fs/FatFs.antt =====
-- include/fs/FatFs.h: reading files and directories. The two windows keep the last sector of
-- the table and the last cluster that were loaded; the object is passed along as a state.
pub mod Windows
pub mod ReadAt
use hausboot.Base.{
  ℕ, zero, suc, ◌+◌, ◌-◌, ◌*◌, ◌/◌, ◌%◌, ◌^◌, min, max, Bool, true, false, not, ◌&&◌, ◌||◌, Option,
  none, some, List, [], ◌∷◌, ◌++◌, ltb, leb, ◌==◌, if◌then◌else◌, length, set, take, drop,
}
use hausboot.Device.{BlockDevice}
use hausboot.Fs.FatDirent.{
  FatDirent, directory, long_file_name, name_to_string, is_last_in_list, is_dummied_out,
  cluster_index,
}
use hausboot.Fs.FatDirent.Layout.{decode}
use hausboot.Fs.FatSuper.{FatSuper, cluster_index_to_sector}
use hausboot.Fs.FatName.{is_short_name}
use hausboot.StringUtil.{str_equal}
use hausboot.Types.FlagField
use hausboot.Types.FixedLengthString.{cstr}
use hausboot.Types.UnalignedInt.{le_value}

pub record FatFile : Type 0 where
  pub cluster : ℕ
  pub size : ℕ
  pub flags : ℕ

pub record FatFs : Type 0 where
  pub super : FatSuper
  pub current_fat_sector : ℕ
  pub current_data_cluster : ℕ
  pub fat_window : List ℕ
  pub data_window : List ℕ

-- What the constructor leaves in the two indices.
abbrev pub no_index : ℕ
no_index = 0xffff_ffff

-- From here on a table entry ends a chain.
abbrev pub chain_end : ℕ
chain_end = 0x0fff_fff0

-- `memory[offset ..]` overwritten by `bytes`.
abbrev pub patch : List ℕ → ℕ → List ℕ → List ℕ
patch memory offset bytes = take offset memory ++ (bytes ++ drop (offset + length bytes) memory)

module _ (dev : BlockDevice) where
  -- The constructor; the windows hold what `malloc` returned.
  unfoldable pub init : FatSuper → List ℕ → List ℕ → FatFs
  init super fat_memory data_memory = record {
    super = super;
    current_fat_sector = no_index;
    current_data_cluster = no_index;
    fat_window = fat_memory;
    data_window = data_memory;
  }

  unfoldable pub bytes_per_cluster : FatSuper → ℕ
  bytes_per_cluster super = super.sectors_per_cluster * dev.sector_size

  unfoldable pub root_dir : FatSuper → FatFile
  unfolding FlagField.set
  root_dir super = record {
    cluster = super.root_dir_index;
    size = 0;
    flags = FlagField.set 0 directory;
  }

  -- The loop of `LoadDataCluster`, with `left` sectors to go from the `i`-th.
  unfoldable pub load_loop : ℕ → ℕ → ℕ → List ℕ → Bool × List ℕ
  load_loop lba zero i window = (true, window)
  load_loop lba (suc left) i window = elim (dev.load_sector ((lba + i) % 2 ^ 32)) [
    | none ↦ (false, window)
    | some d ↦ load_loop lba left (i + 1) (patch window (i * dev.sector_size) d)
  ]

  unfoldable pub load_data_cluster : FatFs → ℕ → Bool × FatFs
  unfolding load_loop
  load_data_cluster fs index =
      if ltb index 2
      then (false, fs)
      else if index == fs.current_data_cluster
      then (true, fs)
      else (let lba = cluster_index_to_sector fs.super index in
          let (ok, window) = load_loop lba fs.super.sectors_per_cluster 0 fs.data_window in
          if ok
          then (true, record fs { data_window = window; current_data_cluster = index })
          else (false, record fs { data_window = window }))

  unfoldable pub load_fat_sector : FatFs → ℕ → Bool × FatFs
  load_fat_sector fs index =
      if leb fs.super.sectors_per_fat index
      then (false, fs)
      else if index == fs.current_fat_sector
      then (true, fs)
      else elim (dev.load_sector ((fs.super.num_reserved_sectors + index) % 2 ^ 32)) [
        | none ↦ (false, fs)
        | some d ↦
            (true, record fs { fat_window = patch fs.fat_window 0 d; current_fat_sector = index })
      ]

  -- `ReadFatIndex`: `none` for its `false`.
  unfoldable pub read_fat_index : FatFs → ℕ → Option ℕ × FatFs
  unfolding load_fat_sector
  read_fat_index fs index =
      let sector = index * 4 % 2 ^ 32 / dev.sector_size in
      let offset = index * 4 % 2 ^ 32 % dev.sector_size in
      let (ok, fs') = load_fat_sector fs sector in
      if ok then (some (le_value (take 4 (drop offset fs'.fat_window))), fs') else (none, fs')

-- `ReadAt` returns the count of bytes written to the buffer, or -1. `io_error` has the bytes that
-- were written before the failure.
pub data ReadResult : Type 0 where
  bytes : List ℕ → ReadResult
  io_error : List ℕ → ReadResult
  out_of_fuel : ReadResult

abbrev pub prepend : List ℕ → ReadResult → ReadResult
prepend s (bytes t) = bytes (s ++ t)
prepend s (io_error t) = io_error (s ++ t)
prepend s out_of_fuel = out_of_fuel

abbrev extend : List ℕ → ReadResult × FatFs → ReadResult × FatFs
extend s (r, fs) = (prepend s r, fs)

-- `if (!ReadFatIndex(cluster, next)) return -1; cluster = next;`
abbrev follow : Option ℕ × FatFs → (ℕ → FatFs → ReadResult × FatFs) → ReadResult × FatFs
follow (none, fs) k = (io_error [], fs)
follow (some next, fs) k = k next fs

module _ (dev : BlockDevice) where
  -- The loop of `ReadAt` over its variables `cluster`, `offset` and `size`.
  unfoldable pub read_loop : ℕ → FatFs → ℕ → ℕ → ℕ → ReadResult × FatFs
  unfolding bytes_per_cluster
  read_loop zero fs cluster offset size = (out_of_fuel, fs)
  read_loop (suc fuel) fs cluster offset size =
      let next : FatFs → ℕ → ℕ → ReadResult × FatFs = λ fs offset size.
        follow (read_fat_index dev fs cluster) (λ n fs. read_loop fuel fs n offset size) in
      if not (ltb 0 size && ltb cluster chain_end)
      then (bytes [], fs)
      else if ltb offset (bytes_per_cluster dev fs.super)
      then (let (ok, fs) = load_data_cluster dev fs cluster in
          if not ok
          then (io_error [], fs)
          else (let diff = min (bytes_per_cluster dev fs.super - offset) size in
              let chunk = take diff (drop offset fs.data_window) in
              if ltb 0 (size - diff)
              then extend chunk (next fs 0 (size - diff))
              else (bytes chunk, fs)))
      else next fs (offset - bytes_per_cluster dev fs.super) size

  -- `ReadAt`: a size of 0 stands for a file without a known end, such as a directory.
  unfoldable pub read_at : ℕ → FatFs → FatFile → ℕ → ℕ → ReadResult × FatFs
  unfolding read_loop
  read_at fuel fs finfo offset size =
      if ltb 0 finfo.size && leb finfo.size offset
      then (bytes [], fs)
      else read_loop fuel fs finfo.cluster offset
          (if ltb 0 finfo.size then min size (finfo.size - offset) else size)

-- `FindResult`, with the file that `Ok` comes with.
pub data FindResult : Type 0 where
  ok : FatFile → FindResult
  name_invalid io_error no_entry not_dir out_of_fuel : FindResult

-- What the loop over a cluster's entries ends with: a result, or the next cluster.
pub data Scanned : Type 0 where
  result : FindResult → Scanned
  go_on : Scanned

-- The file that an entry describes.
unfoldable pub file_of : FatDirent → FatFile
file_of e = record { cluster = cluster_index e; size = e.size; flags = e.flags }

-- Whether `StrEqual(buffer, name)` holds behind `NameToString(buffer)`. Where that returns false
-- the buffer keeps what the stack held, `junk`.
unfoldable pub entry_matches : List ℕ → FatDirent → List ℕ → Bool
entry_matches junk e name = elim (name_to_string e junk) [
  | none ↦ false
  | some (named, buffer) ↦ str_equal buffer name
]

-- The loop over the entries, with `left` to go, in the window from the entry on. The buffer of a
-- round is not initialised: what the stack holds there, such as an earlier name, is a parameter,
-- by the entries to go.
unfoldable pub scan_entries : (ℕ → List ℕ) → List ℕ → ℕ → List ℕ → Scanned
unfolding entry_matches file_of FlagField.is_set
scan_entries junk name zero window = go_on
scan_entries junk name (suc left) window =
    let e = decode (take 32 window) in
    let rest = scan_entries junk name left (drop 32 window) in
    if is_last_in_list e
    then result no_entry
    else if FlagField.is_set e.flags long_file_name
    then rest
    else if is_dummied_out e
    then rest
    else if entry_matches (junk left) e name
    then result (ok (file_of e))
    else rest

-- What the stack holds is given for every state of the reader and every round.
module _ (dev : BlockDevice) (junk : FatFs → ℕ → List ℕ) where
  -- The loop of `FindInDirectory` over the chain's clusters.
  unfoldable pub find_loop : ℕ → FatFs → List ℕ → ℕ → FindResult × FatFs
  unfolding bytes_per_cluster scan_entries
  find_loop zero fs name index = (out_of_fuel, fs)
  find_loop (suc fuel) fs name index =
      if not (ltb index chain_end)
      then (no_entry, fs)
      else (let (loaded, fs) = load_data_cluster dev fs index in
          if not loaded
          then (io_error, fs)
          else (let (entry, fs) = read_fat_index dev fs index in
              elim entry [
                | none ↦ (io_error, fs)
                | some next ↦
                    let max = bytes_per_cluster dev fs.super / 32 in
                    elim (scan_entries (junk fs) name max fs.data_window) [
                      | result r ↦ (r, fs)
                      | go_on ↦ find_loop fuel fs name next
                    ]
              ]))

  unfoldable pub find_in_directory : ℕ → FatFs → FatFile → List ℕ → FindResult × FatFs
  unfolding find_loop FlagField.is_set
  find_in_directory fuel fs dir name =
      if not (is_short_name name)
      then (name_invalid, fs)
      else if not (FlagField.is_set dir.flags directory)
      then (not_dir, fs)
      else find_loop fuel fs name dir.cluster

unfoldable pub is_slash : ℕ → Bool
is_slash c = c == b'/' || c == b'\\'

-- The loop that moves past slashes.
unfoldable pub skip_slashes : List ℕ → List ℕ
skip_slashes [] = []
skip_slashes (c ∷ s) = let rest = skip_slashes s in if is_slash c then rest else c ∷ s

-- The loop that copies a component to `name8_3`, with the rest of the path; `none` where it has
-- more than 12 characters.
unfoldable pub take_component : ℕ → List ℕ → Option (List ℕ × List ℕ)
take_component count [] = some ([], [])
take_component count (c ∷ s) =
    let rest = take_component (count + 1) s in
    if is_slash c
    then some ([], c ∷ s)
    else if leb (8 + 1 + 3) count
    then none
    else elim rest [ none ↦ none | some (t, r) ↦ some (c ∷ t, r) ]

module _ (dev : BlockDevice) (junk : FatFs → ℕ → List ℕ) where
  -- The loop of `FindByPath` over what is left of the path. Each round takes a character or more,
  -- and `fuel` is for the directories' chains.
  unfoldable pub path_loop : ℕ → ℕ → FatFs → List ℕ → FatFile → FindResult × FatFs
  unfolding is_slash skip_slashes take_component
  path_loop zero fuel fs name out = (out_of_fuel, fs)
  path_loop (suc rounds) fuel fs [] out = (ok out, fs)
  path_loop (suc rounds) fuel fs (c ∷ s) out =
      let skipped = path_loop rounds fuel fs (skip_slashes (c ∷ s)) out in
      if is_slash c then skipped else elim (take_component 0 (c ∷ s)) [
        | none ↦ (name_invalid, fs)
        | some (component, rest) ↦
            let (found, fs) = find_in_directory dev junk fuel fs out component in
            elim found [ ok file ↦ path_loop rounds fuel fs rest file | other ↦ (other, fs) ]
      ]

  unfoldable pub find_by_path : ℕ → FatFs → List ℕ → FindResult × FatFs
  unfolding path_loop find_in_directory root_dir
  find_by_path fuel fs name =
      path_loop (length (cstr name) + 1) fuel fs (cstr name) (root_dir dev fs.super)

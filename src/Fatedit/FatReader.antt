-- ===== src/Fatedit/FatReader.antt =====
-- tools/fatedit.cpp, `FatReader`: the file allocation table in memory, as its bytes. `none` is an
-- exception. The tool runs on a host, where `size_t` has 64 bits.
pub mod Table
pub mod Bounds
pub mod Allocate
use hausboot.Base.{
  ℕ, zero, suc, ◌+◌, ◌-◌, ◌*◌, ◌/◌, ◌%◌, ◌^◌, bit_and, bit_or, Bool, ◌&&◌, ◌||◌, Option, none, some,
  List, ltb, leb, ◌==◌, if◌then◌else◌, length, get_elem?, set,
}
use hausboot.Base.Options.{◌>>=◌}
use hausboot.Fs.FatSuper.{FatSuper}

-- The four bytes from `idx` as `NextClusterInFile` joins them.
unfoldable pub entry_value : ℕ → ℕ → ℕ → ℕ → ℕ
entry_value a b c d =
    bit_and (bit_or (bit_or (bit_or a (b * 2 ^ 8)) (c * 2 ^ 16)) (d * 2 ^ 24)) 0x0FFFFFFF

-- `NextClusterInFile`: the index is a `uint32_t`, and `at` throws past the end.
unfoldable pub next_cluster_in_file : List ℕ → ℕ → Option ℕ
next_cluster_in_file raw n =
    let idx = n * 4 % 2 ^ 32 in
    (do
      a ← get_elem? raw idx
      b ← get_elem? raw (idx + 1)
      c ← get_elem? raw (idx + 2)
      d ← get_elem? raw (idx + 3)
      some (entry_value a b c d))

-- The four assignments of `Set`.
unfoldable pub set_bytes : List ℕ → ℕ → ℕ → List ℕ
set_bytes raw idx value =
    set
      (set (set (set raw idx (bit_and value 0xFF)) (idx + 1) (bit_and (value / 2 ^ 8) 0xFF))
        (idx + 2) (bit_and (value / 2 ^ 16) 0xFF))
      (idx + 3) (bit_and (value / 2 ^ 24) 0x0F)

-- `Set`
unfoldable pub set_entry : List ℕ → ℕ → ℕ → List ℕ
set_entry raw n value =
    let idx = n * 4 % 2 ^ 64 in
    if ltb (length raw) 4 || leb (length raw - 3) idx then raw else set_bytes raw idx value

-- `NumFreeClusters`, over the entries from `i` on.
unfoldable pub count_free : List ℕ → ℕ → ℕ → ℕ → Option ℕ
count_free raw zero i count = some count
count_free raw (suc left) i count = do
  next ← next_cluster_in_file raw i
  count_free raw left (i + 1) (if next == 0 then count + 1 else count)

unfoldable pub num_free_clusters : List ℕ → Option ℕ
num_free_clusters raw = count_free raw (length raw / 4) 0 0

-- What `FindFreeCluster` returns where it finds nothing.
abbrev pub no_cluster : ℕ
no_cluster = 0x0FFFFFFF8

-- The loop of `FindFreeCluster` over the entries from `i` on.
unfoldable pub find_free_loop : List ℕ → ℕ → ℕ → Option ℕ
find_free_loop raw zero i = some no_cluster
find_free_loop raw (suc left) i = do
  next ← next_cluster_in_file raw i
  if next == 0 then some i else find_free_loop raw left (i + 1)

-- How many entries `FindFreeCluster` looks at, where its division does not trap; 0 where it
-- returns before its loop.
unfoldable pub searched : FatSuper → ℕ
searched s =
    let fat_sectors = s.sectors_per_fat * s.num_fats % 2 ^ 32 in
    if leb s.total_sector_count fat_sectors
    then 0
    else (let total = s.total_sector_count - fat_sectors in
        if leb total s.num_reserved_sectors
        then 0
        else (total - s.num_reserved_sectors) / s.sectors_per_cluster)

-- Whether `FindFreeCluster` divides by a number of sectors that is zero, which traps.
unfoldable pub divides_by_zero : FatSuper → Bool
divides_by_zero s =
    let fat_sectors = s.sectors_per_fat * s.num_fats % 2 ^ 32 in
    s.sectors_per_cluster == 0 && ltb (fat_sectors + s.num_reserved_sectors) s.total_sector_count

-- `FindFreeCluster`; `none` for an exception and for the trap.
unfoldable pub find_free_cluster : List ℕ → FatSuper → Option ℕ
find_free_cluster raw s = if divides_by_zero s then none else find_free_loop raw (searched s) 0

-- `AllocateCluster`: the cluster and the table.
unfoldable pub allocate_cluster : List ℕ → FatSuper → Option (ℕ × List ℕ)
allocate_cluster raw s = do
  out ← find_free_cluster raw s
  if leb 0x0FFFFFF8 out then none else some (out, set_entry raw out 0x0FFFFFF8)

-- `AllocateCluster` behind the last cluster of a file.
unfoldable pub allocate_cluster_after : List ℕ → FatSuper → ℕ → Option (ℕ × List ℕ)
allocate_cluster_after raw s last = do
  (out, raw) ← allocate_cluster raw s
  some (out, set_entry raw last out)

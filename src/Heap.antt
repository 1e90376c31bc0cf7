-- ===== src/Heap.antt =====
-- stage2/heap.cpp: the boot loader's heap, a chain of blocks that each begin with an entry of
-- eight bytes. The memory of the entries is a store from addresses to entries; a block's own
-- bytes are its user's, who is taken to stay within them. Addresses are 32-bit numbers.
pub mod Chain
pub mod Search
pub mod Reserve
pub mod Malloc
pub mod Merge
pub mod Free
mod Tests
use hausboot.Base.{
  ℕ, zero, suc, ◌+◌, ◌-◌, ◌%◌, ◌^◌, Bool, true, false, not, ◌&&◌, ◌||◌, Option, none, some, ltb,
  leb, ◌==◌, if◌then◌else◌, set,
}
use hausboot.Types.FlagField

pub record HeapEntry : Type 0 where
  pub next : ℕ
  pub flags : ℕ

abbrev pub Store : Type 0
Store = ℕ → HeapEntry

pub write : Store → ℕ → HeapEntry → Store
write m p e a = if a == p then e else m a

abbrev pub entry_size : ℕ
entry_size = 8

-- `HeapFlags::Reserved`
abbrev pub reserved : ℕ
reserved = 0x01

pub is_free : Store → ℕ → Bool
is_free m ent = not (FlagField.is_set (m ent).flags reserved)

-- `Size`: a difference of pointers, as a `size_t`.
pub size : Store → ℕ → ℕ
size m ent = ((m ent).next + 2 ^ 33 - ent - entry_size) % 2 ^ 32

-- `Init`
pub init : Store → ℕ → ℕ → Store
init m ent next = write m ent (record { next = next; flags = 0 })

-- The split in `Reserve`: a free entry behind `count` bytes takes what is left.
pub split : Store → ℕ → ℕ → Store
split m ent count =
    let rest = ent + entry_size + count in
    let m' = init m rest (m ent).next in write m' ent (record (m' ent) { next = rest })

-- `Reserve`: the block's address, 0 for the null pointer.
pub reserve : Store → ℕ → ℕ → ℕ × Store
reserve m ent count =
    let sz = size m ent in
    if not (is_free m ent) || ltb sz count
    then (0, m)
    else (let m' = if leb (entry_size + 4) (sz - count) then split m ent count else m in
        (
          ent + entry_size,
          write m' ent (record (m' ent) { flags = FlagField.set (m' ent).flags reserved }),
        ))

-- `Release`
pub release : Store → ℕ → Store
release m ent = write m ent (record (m ent) { flags = FlagField.clear 32 (m ent).flags reserved })

-- `TryConsolidate`: the result, and the store.
pub try_consolidate : Store → ℕ → Bool × Store
try_consolidate m ent =
    if is_free m ent && is_free m (m ent).next
    then (true, write m ent (record (m ent) { next = (m (m ent).next).next }))
    else (false, m)

-- `HeapInit`: the end of the heap, and the store.
pub heap_init : Store → ℕ → ℕ → ℕ × Store
heap_init m base max_size =
    let size = if max_size % 4 == 0 then max_size else max_size - max_size % 4 in
    (base + size, init m base (base + size))

-- `count` rounded up to a multiple of four, as a `size_t`.
pub round_up : ℕ → ℕ
round_up count = if count % 4 == 0 then count else (count + (4 - count % 4)) % 2 ^ 32

-- One round of the search: the smallest block so far that is free and big enough.
pub better : Store → ℕ → ℕ → Option ℕ → Option ℕ
better m count it found =
    if is_free m it && leb count (size m it)
    then elim found [
      | none ↦ some it
      | some f ↦ if ltb (size m it) (size m f) then some it else some f
    ]
    else found

-- The search of `malloc` from `it`; `none` where the fuel runs out.
unfoldable pub find_loop : ℕ → Store → ℕ → ℕ → ℕ → Option ℕ → Option (Option ℕ)
find_loop zero m heap_end count it found = none
find_loop (suc fuel) m heap_end count it found =
    let rest = find_loop fuel m heap_end count (m it).next (better m count it found) in
    if it == heap_end then some found else rest

-- `malloc`; `none` where the fuel runs out.
pub malloc : ℕ → Store → ℕ → ℕ → ℕ → Option (ℕ × Store)
malloc fuel m heap heap_end count = elim (find_loop fuel m heap_end (round_up count) heap none) [
  | none ↦ none
  | some none ↦ some (0, m)
  | some (some ent) ↦ some (reserve m ent (round_up count))
]

-- The inner loop of `free` from `ent`: whether two blocks were merged, and the store.
pub merge_pass : ℕ → Store → ℕ → ℕ → Option (Bool × Store)
merge_pass zero m heap_end ent = none
merge_pass (suc fuel) m heap_end ent =
    let rest = merge_pass fuel m heap_end (m ent).next in
    let (merged, m') = try_consolidate m ent in
    if (m ent).next == heap_end then some (false, m) else if merged then some (true, m') else rest

-- The outer loop of `free`.
pub merge_loop : ℕ → ℕ → Store → ℕ → ℕ → Option Store
merge_loop zero fuel m heap heap_end = none
merge_loop (suc rounds) fuel m heap heap_end = elim (merge_pass fuel m heap_end heap) [
  | none ↦ none
  | some (merged, m') ↦
      let rest = merge_loop rounds fuel m' heap heap_end in if merged then rest else some m'
]

-- `free`; `none` where the fuel runs out.
pub free : ℕ → Store → ℕ → ℕ → ℕ → Option Store
free fuel m heap heap_end ptr =
    if ptr == 0 then some m else merge_loop fuel fuel (release m (ptr - entry_size)) heap heap_end

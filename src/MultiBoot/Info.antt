-- ===== src/MultiBoot/Info.antt =====
-- include/kernel/MultiBootInfo.h and include/kernel/MultiBootMmap.h, `MBGenInfo` of
-- stage2/stage2.cpp, and the walk over the memory map in kernel/kernel.cpp. Memory holds the
-- entries of the map by their addresses; a null pointer is `none`.
-- `BaseAddress` and `Size` of an entry are read with `UnalignedInt<uint64_t>::Read`, which shifts
-- an `int` by 32 bits and more. C++ does not define that: what the compiled read gives for a stored
-- value is the parameter `read64`, of which nothing is assumed.
pub mod Walk
use hausboot.Base.{
  ℕ, zero, suc, ◌+◌, ◌-◌, ◌*◌, ◌/◌, ◌%◌, ◌^◌, Option, none, some, List, [], ◌∷◌, ltb, ◌==◌,
  if◌then◌else◌, length, set,
}
use hausboot.Types.FlagField
use hausboot.MultiBoot.MemoryMap.{
  MemoryMapEntry, MemType, usable, reserved, acpi, preserve, broken, mem_type,
}

pub record MultiBootMmap : Type 0 where
  pub size : ℕ
  pub wrapped : MemoryMapEntry

-- The fields that some code sets or reads.
pub record MultiBootInfo : Type 0 where
  pub flags : ℕ
  pub mem_lower : ℕ
  pub mem_upper : ℕ
  pub cmdline : Option (List ℕ)
  pub mmap_length : ℕ
  pub mmap_base : ℕ
  pub loader_name : Option (List ℕ)

-- `enum class InfoFlag`
abbrev pub cmd_line_flag : ℕ
cmd_line_flag = 0x00000004

abbrev pub mem_map_flag : ℕ
mem_map_flag = 0x00000040

abbrev pub loader_name_flag : ℕ
loader_name_flag = 0x00000200

-- What the member initialisers give.
abbrev pub empty_info : MultiBootInfo
empty_info = record {
  flags = 0;
  mem_lower = 0;
  mem_upper = 0;
  cmdline = none;
  mmap_length = 0;
  mmap_base = 0;
  loader_name = none;
}

-- `BootLoaderName`
pub boot_loader_name : MultiBootInfo → Option (List ℕ)
boot_loader_name info =
    if FlagField.is_set info.flags loader_name_flag then info.loader_name else none

-- `SetLoadName`
pub set_load_name : MultiBootInfo → List ℕ → MultiBootInfo
set_load_name info name = record info {
  loader_name = some name;
  flags = FlagField.set info.flags loader_name_flag;
}

-- `CommandLine`
pub command_line : MultiBootInfo → Option (List ℕ)
command_line info = if FlagField.is_set info.flags cmd_line_flag then info.cmdline else none

-- `MemoryMapBegin` and `MemoryMapEnd`
pub memory_map_begin : MultiBootInfo → Option ℕ
memory_map_begin info =
    if FlagField.is_set info.flags mem_map_flag then some info.mmap_base else none

pub memory_map_end : MultiBootInfo → Option ℕ
memory_map_end info =
    if FlagField.is_set info.flags mem_map_flag
    then some ((info.mmap_base + info.mmap_length) % 2 ^ 32)
    else none

module _ (read64 : ℕ → ℕ) where
  -- The round of `SetMemoryMap` for an entry of some type.
  pub note_kind : MemType → MultiBootInfo → MemoryMapEntry → MultiBootInfo
  note_kind usable info e =
      if ltb 0xFFFFFFFF (read64 e.base)
      then info
      else if ltb (read64 e.base) 0x00100000
      then record info { mem_lower = read64 e.size / 1024 % 2 ^ 32 }
      else record info { mem_upper = read64 e.size / 1024 % 2 ^ 32 }
  note_kind reserved info e = info
  note_kind acpi info e = info
  note_kind preserve info e = info
  note_kind broken info e = info

  pub note_entry : MultiBootInfo → MemoryMapEntry → MultiBootInfo
  note_entry info e = note_kind (mem_type e) info e

  pub note_entries : MultiBootInfo → List MultiBootMmap → MultiBootInfo
  note_entries info [] = info
  note_entries info (m ∷ array) = note_entries (note_entry info m.wrapped) array

  -- `SetMemoryMap`, for an array at address `base`.
  pub set_memory_map : MultiBootInfo → ℕ → List MultiBootMmap → MultiBootInfo
  set_memory_map info base array =
      note_entries
        (record info {
          mmap_base = base;
          mmap_length = length array * 24 % 2 ^ 32;
          flags = FlagField.set info.flags mem_map_flag;
        })
        array

-- `Next` of an entry at an address, and the size that `SetNext` stores.
pub next_of : ℕ → MultiBootMmap → ℕ
next_of this m = (this + m.size + 4) % 2 ^ 32

pub set_next : ℕ → MultiBootMmap → ℕ → MultiBootMmap
set_next this m next = record m { size = (next + 2 ^ 33 - this - 4) % 2 ^ 32 }

-- The loop of `MBGenInfo` over the entries from the address `this` on. The array's size fields
-- are not initialised before.
pub gen_entries : ℕ → ℕ → List MemoryMapEntry → List MultiBootMmap
gen_entries junk this [] = []
gen_entries junk this (e ∷ entries) =
    set_next this (record { size = junk; wrapped = e }) (this + 24)
    ∷ gen_entries junk (this + 24) entries

-- "hausboot"
abbrev pub load_name : List ℕ
load_name = b'h' ∷ b'a' ∷ b'u' ∷ b's' ∷ b'b' ∷ b'o' ∷ b'o' ∷ b't' ∷ []

module _ (read64 : ℕ → ℕ) where
  -- `MBGenInfo`: the array is allocated at address `base`.
  pub gen_info : ℕ → ℕ → List MemoryMapEntry → MultiBootInfo × List MultiBootMmap
  gen_info junk base entries =
      let array = gen_entries junk base entries in
      (set_memory_map read64 (set_load_name empty_info load_name) base array, array)

-- An array in memory.
pub load_array : ℕ → List MultiBootMmap → ℕ → Option MultiBootMmap
load_array base [] addr = none
load_array base (m ∷ array) addr =
    let rest = load_array (base + 24) array addr in if addr == base then some m else rest

-- What `PrintMemoryMap` writes of an entry: the first and the last byte and the type. The sum has
-- 64 bits.
pub record Line : Type 0 where
  pub start : ℕ
  pub last : ℕ
  pub kind : MemType

module _ (read64 : ℕ → ℕ) where
  pub line_of : MemoryMapEntry → Line
  line_of e =
      let start = read64 e.base in
      let size = read64 e.size in
      let sum = (start + size) % 2 ^ 64 in
      record {
        start = start;
        last =
            if ltb 0 size then (if ltb sum start then 0xFFFFFFFFFFFFFFFF else sum - 1) else start;
        kind = mem_type e;
      }

-- A line in front of the others.
pub put_line : Line → Option (List Line) → Option (List Line)
put_line l none = none
put_line l (some lines) = some (l ∷ lines)

module _ (read64 : ℕ → ℕ) where
  -- The line of the entry that memory holds, and what the loop goes on to write.
  pub visit : Option MultiBootMmap → (MultiBootMmap → Option (List Line)) → Option (List Line)
  visit none again = none
  visit (some m) again = put_line (line_of read64 m.wrapped) (again m)

  -- The loop of `PrintMemoryMap`; `none` for an access to memory that holds no entry, or where the
  -- fuel runs out.
  pub walk : ℕ → (ℕ → Option MultiBootMmap) → ℕ → ℕ → Option (List Line)
  walk zero memory this end = none
  walk (suc fuel) memory this end =
      let rest = visit (memory this) (λ m. walk fuel memory (next_of this m) end) in
      if ltb this end then rest else some []

  -- `PrintMemoryMap`; no line where the loader provides no map.
  pub print_memory_map : ℕ → (ℕ → Option MultiBootMmap) → MultiBootInfo → Option (List Line)
  print_memory_map fuel memory info = elim (memory_map_begin info) [
    | none ↦ some []
    | some this ↦ elim (memory_map_end info) [
      | none ↦ some []
      | some end ↦ walk fuel memory this end
    ]
  ]

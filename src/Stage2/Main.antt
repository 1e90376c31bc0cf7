-- ===== src/Stage2/Main.antt =====
-- stage2/stage2.cpp: the commands of the configuration file and `main`. What the screen shows is
-- left out but for the values that `info` looks up; the heap's allocations are taken to succeed.
pub mod Boots
use hausboot.Base.{
  ℕ, Bool, true, false, not, Option, none, some, List, [], ◌∷◌, map, ltb, if◌then◌else◌,
}
use hausboot.Device.{BlockDevice}
use hausboot.Types.FlagField
use hausboot.Types.FixedLengthString.{cstr}
use hausboot.StringUtil.{str_equal}
use hausboot.Part.ChsPacked.{ChsPacked}
use hausboot.Part.BiosDisk.{DriveGeometry, lba_to_chs}
use hausboot.Fs.FatFs.{
  FatFile, FatFs, ReadResult, bytes, io_error, out_of_fuel, read_at, FindResult, ok, find_by_path,
}
use hausboot.MultiBoot.Header.{MultiBootHeader}
use hausboot.MultiBoot.MemoryMap.{MemoryMapEntry}
use hausboot.MultiBoot.Info.{MultiBootMmap, MultiBootInfo, gen_info}
use hausboot.Pm86.Copy.{Memory}
use hausboot.Stage2.Kernel.{
  Search, found, failed, passed, stuck, Load, loaded, read_failed, layout_broken, load_stuck,
  header_of, mb_find_header, mb_load_kernel,
}
use hausboot.Stage2.Script
use hausboot.Stage2.Script.{Outcome, run_script}

-- `enum class KernelFlags`
abbrev pub want_vidmode : ℕ
want_vidmode = 0x00000004

abbrev pub have_layout_info : ℕ
have_layout_info = 0x00010000

-- The global objects: the file system, the memory that kernels are loaded to, `haveKernel` and
-- `kernelEntry`. `starved` tells that a loop had too little fuel.
pub record Loader : Type 0 where
  pub fs : FatFs
  pub memory : Memory
  pub have_kernel : Bool
  pub kernel_entry : ℕ
  pub starved : Bool

-- What `info` shows.
pub data Info : Type 0 where
  disk_info : DriveGeometry → ℕ → ChsPacked → Info
  memory_info : List MemoryMapEntry → Info

abbrev pub disk_word : List ℕ
disk_word = b'd' ∷ b'i' ∷ b's' ∷ b'k' ∷ []

abbrev pub memory_word : List ℕ
memory_word = b'm' ∷ b'e' ∷ b'm' ∷ b'o' ∷ b'r' ∷ b'y' ∷ []

-- `CmdInfo`: what it shows, `none` for an unknown type and the result `false`.
unfoldable pub cmd_info : DriveGeometry → ℕ → List MemoryMapEntry → List ℕ → Option Info
cmd_info geom lba mmap what =
    if str_equal what disk_word
    then some (disk_info geom lba (lba_to_chs geom lba))
    else if str_equal what memory_word
    then some (memory_info mmap)
    else none

-- `CmdEcho`: the line is shown.
unfoldable pub cmd_echo : List ℕ → Bool
cmd_echo line = true

-- The parameters: the device, what the stack holds in front of `NameToString`, the fuel of the
-- file system's loops, the buffer's address and what `hdr` holds before.
module _ (dev : BlockDevice) (junk : FatFs → ℕ → List ℕ) (fuel buf : ℕ) (hdr : List ℕ) where
  -- The reads of a file, as the loader of kernels makes them.
  unfoldable pub reads : FatFile → FatFs → ℕ → ℕ → ReadResult × FatFs
  reads finfo fs offset size = read_at dev fuel fs finfo offset size

  -- Behind `MBLoadKernel`.
  unfoldable pub kernel_loaded : Loader → MultiBootHeader → Load × FatFs → Bool × Loader
  kernel_loaded l h (loaded m end, fs) =
      (true, record l { fs = fs; memory = m; have_kernel = true; kernel_entry = h.entry_addr })
  kernel_loaded l h (read_failed m, fs) = (false, record l { fs = fs; memory = m })
  kernel_loaded l h (layout_broken, fs) = (false, record l { fs = fs })
  kernel_loaded l h (load_stuck, fs) = (false, record l { fs = fs; starved = true })

  -- Behind `MBFindHeader`.
  unfoldable pub header_found : Loader → FatFile → Search × FatFs → Bool × Loader
  header_found l finfo (found at b, fs) =
      let h = header_of b in
      let load =
        kernel_loaded l h (mb_load_kernel (reads finfo) fuel fs l.memory buf h at finfo.size) in
      if FlagField.is_set h.flags want_vidmode
      then (false, record l { fs = fs })
      else if not (FlagField.is_set h.flags have_layout_info)
      then (false, record l { fs = fs })
      else load
  header_found l finfo (failed, fs) = (false, record l { fs = fs })
  header_found l finfo (passed ret b, fs) = (false, record l { fs = fs })
  header_found l finfo (stuck, fs) = (false, record l { fs = fs; starved = true })

  -- Behind `FindByPath`.
  unfoldable pub file_found : Loader → FindResult × FatFs → Bool × Loader
  file_found l (ok finfo, fs) =
      header_found l finfo (mb_find_header (reads finfo) fuel fs finfo.size hdr)
  file_found l (FindResult.name_invalid, fs) = (false, record l { fs = fs })
  file_found l (FindResult.io_error, fs) = (false, record l { fs = fs })
  file_found l (FindResult.no_entry, fs) = (false, record l { fs = fs })
  file_found l (FindResult.not_dir, fs) = (false, record l { fs = fs })
  file_found l (FindResult.out_of_fuel, fs) = (false, record l { fs = fs; starved = true })

  -- `CmdMultiboot`
  unfoldable pub cmd_multiboot : List ℕ → Loader → Bool × Loader
  cmd_multiboot path l = file_found l (find_by_path dev junk fuel l.fs path)

  -- The callbacks of `commands[]`, by their names.
  unfoldable pub call :
      DriveGeometry → ℕ → List MemoryMapEntry → List ℕ → List ℕ → Loader → Bool × Loader
  call geom lba mmap name arg l =
      let kernel = cmd_multiboot arg l in
      if str_equal name Script.echo_name
      then (cmd_echo arg, l)
      else if str_equal name Script.info_name
      then (elim (cmd_info geom lba mmap arg) [ none ↦ false | some i ↦ true ], l)
      else kernel

-- What `main` ends with: a message and the `hlt` loop, or the jump into the kernel with the
-- structure for it.
pub data Boot : Type 0 where
  no_device no_a20 no_memory_map no_config too_big unreadable no_kernel starving : Boot
  jumps : ℕ → MultiBootInfo → List MultiBootMmap → Loader → Boot

-- "BOOT.CFG" and its greatest size
abbrev pub boot_config_name : List ℕ
boot_config_name = b'B' ∷ b'O' ∷ b'O' ∷ b'T' ∷ b'.' ∷ b'C' ∷ b'F' ∷ b'G' ∷ []

abbrev pub boot_config_max_size : ℕ
boot_config_max_size = 4096

-- Behind the script: the kernel is run if there is one. `base` is where the map is allocated.
unfoldable pub run_kernel : (ℕ → ℕ) → ℕ → ℕ → List MemoryMapEntry → Outcome × Loader → Boot
run_kernel read64 map_junk base mmap (o, l) =
    let (info, array) = gen_info read64 map_junk base mmap in
    if l.starved
    then starving
    else if l.have_kernel
    then jumps l.kernel_entry info array l
    else no_kernel

module _ (dev : BlockDevice) (junk : FatFs → ℕ → List ℕ) (fuel buf : ℕ) (hdr : List ℕ)
    (geom : DriveGeometry) (lba : ℕ) (read64 : ℕ → ℕ) (map_junk base : ℕ)
    (mmap : List MemoryMapEntry) where
  -- Behind the read of the configuration file.
  unfoldable pub run_config : Loader → ReadResult × FatFs → Boot
  run_config l (io_error b, fs) = unreadable
  run_config l (out_of_fuel, fs) = starving
  run_config l (bytes b, fs) =
      run_kernel read64 map_junk base mmap
        (run_script (call dev junk fuel buf hdr geom lba mmap) (cstr b) (record l { fs = fs }))

  -- Behind `FindByPath` for the configuration file.
  unfoldable pub load_config : Loader → FindResult × FatFs → Boot
  load_config l (ok finfo, fs) =
      if ltb boot_config_max_size finfo.size
      then too_big
      else run_config l (read_at dev fuel fs finfo 0 finfo.size)
  load_config l (FindResult.name_invalid, fs) = no_config
  load_config l (FindResult.io_error, fs) = no_config
  load_config l (FindResult.no_entry, fs) = no_config
  load_config l (FindResult.not_dir, fs) = no_config
  load_config l (FindResult.out_of_fuel, fs) = starving

  unfoldable pub boot : Loader → Boot
  boot l = load_config l (find_by_path dev junk fuel l.fs boot_config_name)

-- `main`, from whether the device is there, what `EnableA20` and `Load` return, and the loader
-- with the file system on the device.
pub start :
    Option BlockDevice
    → Bool
    → Bool × List MemoryMapEntry
    → (BlockDevice → List MemoryMapEntry → Boot)
    → Boot
start none a20 map k = no_device
start (some dev) false map k = no_a20
start (some dev) true (false, mmap) k = no_memory_map
start (some dev) true (true, mmap) k = k dev mmap

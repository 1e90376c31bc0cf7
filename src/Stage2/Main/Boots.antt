-- ===== src/Stage2/Main/Boots.antt =====
-- stage2/stage2.cpp, `main`: a kernel that is started was found, checked and loaded.
use hausboot.Base.{ℕ, ◌≡◌, true, false, List, ltb}
use hausboot.Device.{BlockDevice}
use hausboot.Pm86.Copy.{Memory}
use hausboot.Types.FlagField
use hausboot.Part.BiosDisk.{DriveGeometry}
use hausboot.Fs.FatFs.{FatFile, FatFs, bytes, read_at, ok, find_by_path}
use hausboot.MultiBoot.Header.{is_valid}
use hausboot.MultiBoot.MemoryMap.{MemoryMapEntry}
use hausboot.Stage2.Kernel.{found, loaded, header_of, mb_find_header, mb_load_kernel}
use hausboot.Stage2.Script.{echo_name, info_name}
use hausboot.Stage2.Script.Keeps.{Says}
use hausboot.StringUtil.{str_equal}
use hausboot.Types.FixedLengthString.{cstr}
use hausboot.Stage2.Main.{
  want_vidmode, have_layout_info, Loader, reads, call, Boot, no_device, no_a20, no_memory_map,
  no_config, too_big, unreadable, no_kernel, starving, jumps, boot_config_name,
  boot_config_max_size,
}

-- The state of `main` while it runs the configuration file: the file was found from the loader at
-- the start and read to the end, and then commands of its lines were called.
pub data Reaches (dev : BlockDevice) (junk : FatFs → ℕ → List ℕ) (fuel buf : ℕ) (hdr : List ℕ)
    (geom : DriveGeometry) (lba : ℕ) (mmap : List MemoryMapEntry) (start : Loader)
    : List ℕ → Loader → Type 0 where
  configured :
      {finfo : FatFile} {fs fs' : FatFs} {b : List ℕ}
      → find_by_path dev junk fuel start.fs boot_config_name ≡ (ok finfo, fs)
      → ltb boot_config_max_size finfo.size ≡ false
      → read_at dev fuel fs finfo 0 finfo.size ≡ (bytes b, fs')
      → Reaches dev junk fuel buf hdr geom lba mmap start (cstr b) (record start { fs = fs' })
  called :
      {script : List ℕ} {l : Loader} (cmd arg : List ℕ)
      → Reaches dev junk fuel buf hdr geom lba mmap start script l
      → Says script cmd arg
      → Reaches dev junk fuel buf hdr geom lba mmap start script
          (call dev junk fuel buf hdr geom lba mmap cmd arg l).1

module _ (dev : BlockDevice) (junk : FatFs → ℕ → List ℕ) (fuel buf : ℕ) (hdr : List ℕ)
    (geom : DriveGeometry) (lba : ℕ) (mmap : List MemoryMapEntry) (start : Loader) where
  -- A line whose command is neither `echo` nor `info`, which leaves `multiboot`.
  abbrev pub IsSaid : List ℕ → List ℕ → Type 0
  IsSaid script path =
      (cmd : List ℕ) × Says script cmd path
      × (str_equal cmd echo_name ≡ false)
      × (str_equal cmd info_name ≡ false)

  -- The entry point of a header that was found in a file of the file system, is valid, has the
  -- memory layout, wants no video mode, and whose kernel was loaded from that file. All of this
  -- happened in a state that `main` went through, for a `multiboot` line of the configuration file.
  pub record IsChecked (entry : ℕ) : Type 0 where
    pub script : List ℕ
    pub before : Loader
    pub path : List ℕ
    pub was_reached : Reaches dev junk fuel buf hdr geom lba mmap start script before
    pub was_said : IsSaid script path
    pub finfo : FatFile
    pub opened : FatFs
    pub place : ℕ
    pub header : List ℕ
    pub searched : FatFs
    pub memory : Memory
    pub end_at : ℕ
    pub after : FatFs
    pub was_opened : find_by_path dev junk fuel before.fs path ≡ (ok finfo, opened)
    pub was_found :
        mb_find_header (reads dev junk fuel buf hdr finfo) fuel opened finfo.size hdr
        ≡ (found place header, searched)
    pub valid : is_valid (header_of header) ≡ true
    pub no_vidmode : FlagField.is_set (header_of header).flags want_vidmode ≡ false
    pub has_layout : FlagField.is_set (header_of header).flags have_layout_info ≡ true
    pub was_loaded :
        mb_load_kernel
          (reads dev junk fuel buf hdr finfo)
          fuel
          searched
          before.memory
          buf
          (header_of header)
          place
          finfo.size
        ≡ (loaded memory end_at, after)
    pub is_entry : entry ≡ (header_of header).entry_addr

  -- The loader has no kernel but such a one.
  abbrev pub HasChecked : Loader → Type 0
  HasChecked l = l.have_kernel ≡ true → IsChecked l.kernel_entry

  -- A jump, if there is one, is to a checked entry point.
  abbrev pub JumpsChecked : Boot → Type 0
  JumpsChecked no_device = Unit {0}
  JumpsChecked no_a20 = Unit {0}
  JumpsChecked no_memory_map = Unit {0}
  JumpsChecked no_config = Unit {0}
  JumpsChecked too_big = Unit {0}
  JumpsChecked unreadable = Unit {0}
  JumpsChecked no_kernel = Unit {0}
  JumpsChecked starving = Unit {0}
  JumpsChecked (jumps entry info array l) = IsChecked entry

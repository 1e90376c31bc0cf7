-- ===== src/MultiBoot/Info/Walk.antt =====
-- stage2/stage2.cpp and kernel/kernel.cpp: the kernel sees the map that the loader builds.
use hausboot.Base.{ℕ, ◌≡◌}
use hausboot.Types.FlagField
use hausboot.MultiBoot.Info.{MultiBootInfo}

module _ (read64 : ℕ → ℕ) where
  -- What the loop of `SetMemoryMap` leaves alone.
  record Keeps (info info' : MultiBootInfo) : Type 0 where
    flags_same : info'.flags ≡ info.flags
    base_same : info'.mmap_base ≡ info.mmap_base
    length_same : info'.mmap_length ≡ info.mmap_length
    name_same : info'.loader_name ≡ info.loader_name

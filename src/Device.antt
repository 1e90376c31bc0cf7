-- ===== src/Device.antt =====
-- include/device/IBlockDevice.h: a device that loads whole sectors. Its implementers' answers are
-- the BIOS's, so a device is a parameter: what it answers for each sector number, `none` for a
-- failure. A load that fails is taken to leave the buffer as it was.
pub mod Gate
use hausboot.Base.{ℕ, ◌<◌, ◌≡◌, Option, some, List, length}

pub record BlockDevice : Type 0 where
  pub load_sector : ℕ → Option (List ℕ)
  pub sector_size : ℕ

-- A sector has as many bytes as the device says.
pub record IsDevice (dev : BlockDevice) : Type 0 where
  pub sector_length : (i : ℕ) (d : List ℕ) → dev.load_sector i ≡ some d → length d ≡ dev.sector_size
  pub size_pos : 0 < dev.sector_size

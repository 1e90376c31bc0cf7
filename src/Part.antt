-- ===== src/Part.antt =====
-- Partition table entries and disk addresses: include/part and include/BIOS.
pub mod ChsPacked
pub mod BiosDisk
pub mod BiosDevice
pub mod MbrEntry
mod Tests

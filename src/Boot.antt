-- ===== src/Boot.antt =====
-- The stages before the loader: the header of stage 2, the boot sector of the partition and the
-- boot sector of the disk.
pub mod Stage2Header
pub mod Mbr
pub mod Vbr
mod Tests

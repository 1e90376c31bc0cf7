-- ===== src/Fs.antt =====
-- The FAT32 file system of include/fs.
pub mod FatName
pub mod ShortName
pub mod FatDirent
pub mod FatDirentLong
pub mod FatSuper
pub mod FatFs
mod Tests

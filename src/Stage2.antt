-- ===== src/Stage2.antt =====
-- stage2/stage2.cpp: the main program of the boot loader.
pub mod Kernel
pub mod Script
pub mod Main
mod Tests
mod BootTests

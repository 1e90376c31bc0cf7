-- ===== src/Fatedit.antt =====
-- tools/fatedit.cpp: the editor of disk images, and tools/util.h.
pub mod FatReader
pub mod Util
pub mod FileReader
pub mod Outcome
pub mod FileWriter
pub mod Directory
pub mod Commands
pub mod Table
pub mod Session
pub mod Memory
mod Tests
mod WriterTests
mod ImageTests

-- ===== src/Host.antt =====
-- include/host: the host's files.
pub mod File
mod Tests

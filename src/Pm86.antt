-- ===== src/Pm86.antt =====
-- pm86 and the routines that run in protected mode.
pub mod Copy
mod Tests

-- ===== src/Screen.antt =====
-- What is written to a screen: numbers as text, and the text mode's memory.
pub mod TextScreen
pub mod VideoMemory
mod Tests

-- ===== src/Types.antt =====
-- The value types of include/types: packed integers, flag sets and padded strings.
pub mod UnalignedInt
pub mod FlagField
pub mod FixedLengthString

-- ===== src/Store/Lifecycle.antt =====
-- Sequences of the store's operations, and what they keep.
pub mod Defs
pub mod Tracked
pub mod Kept
pub mod Exclusive
pub mod Performs
pub mod Waiting

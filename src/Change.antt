-- ===== src/Change.antt =====
-- krennic/internal/change/builder.go.
pub mod Defs
pub mod Content
mod Examples
pub mod Snapshot

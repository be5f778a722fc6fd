-- ===== src/Debounce.antt =====
-- krennic/internal/debounce/debounce.go.
pub mod Defs
pub mod Scheduled
pub mod Stopped
mod Examples
pub mod Settled

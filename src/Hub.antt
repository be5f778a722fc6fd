-- ===== src/Hub.antt =====
-- krennic/internal/hub/store.go: the central, hash-chained audit log.
pub mod Log
pub mod Chain
pub mod Append
pub mod Recorded
pub mod Tamper
pub mod Limits
pub mod Client
pub mod Server
pub mod Access
mod Examples
pub mod Samples
mod AccessExamples

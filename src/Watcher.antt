-- ===== src/Watcher.antt =====
-- krennic/internal/watcher/watcher.go.
pub mod Defs
pub mod Longest
pub mod Discover
pub mod Events
pub mod Watched
pub mod Reported
pub mod Plane
pub mod Saved
mod Examples
mod PlaneExamples

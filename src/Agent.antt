-- ===== src/Agent.antt =====
-- krennic/internal/agent: the daemon that wires the components.
pub mod Console
pub mod Defs
pub mod Work
pub mod Performs
pub mod Steps
pub mod Drain
pub mod Outbox
pub mod Daemon
pub mod Refines
pub mod Samples
mod Examples
pub mod Listed
pub mod Delivery
pub mod Awaits
pub mod Delivered
pub mod Http
pub mod Startup
pub mod New
pub mod Slug
pub mod Reads
pub mod Paused
pub mod Reported
mod ReportedExamples
mod StartupExamples
mod SlugExamples
pub mod Wired
pub mod Handled
pub mod Saved
pub mod Queued
mod SavedExamples
pub mod Round
mod RoundExamples

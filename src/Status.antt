-- ===== src/Status.antt =====
-- krennic/internal/status/status.go: the verdicts as commit statuses.
pub mod Defs
mod Examples

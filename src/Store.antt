-- ===== src/Store.antt =====
-- krennic/internal/store: the durable queue, the records, the costs and the outbox of the agent.
pub mod Schema
pub mod Queue
pub mod Records
pub mod Outbox
pub mod Enqueue
pub mod Stored
pub mod Oldest
pub mod Claim
pub mod RoundTrip
pub mod Lifecycle
mod Examples
mod LifecycleExamples

-- ===== src/Scheduler.antt =====
-- src/concurrency-scheduler.ts: the admission of agent runs under concurrency limits.
pub mod Policy
pub mod Queue
pub mod Events
pub mod Ledger
pub mod Progress
pub mod Limits
pub mod Order
pub mod Capacity
pub mod Settlement
pub mod Ids
pub mod Identity
pub mod Snapshot
pub mod Tests

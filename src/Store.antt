-- ===== src/Store.antt =====
-- src/store.ts: the durable ledger of sessions, batches, workers, assignments and launches.
pub mod State
pub mod Workers
pub mod Outcomes
pub mod Overdue
pub mod Calls
pub mod Lookup
pub mod Changes
pub mod Terminal
pub mod Cancellation
pub mod Audit
pub mod Fields
pub mod Links
pub mod Chain
pub mod AuditTests
pub mod Launch
pub mod Binding
pub mod Reservation
pub mod LaunchTests
pub mod Results
pub mod Authority
pub mod ResultTests
pub mod Dispatch
pub mod Dispatched
pub mod Refusals
pub mod Tests

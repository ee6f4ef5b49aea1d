-- ===== src/Adapter.antt =====
-- src/concurrency-limited-agent-adapter.ts: agent runs that hold a permit of the scheduler.
pub mod Permits
pub mod Recovery
pub mod Growth
pub mod Core
pub mod Admitted
pub mod Maps
pub mod Books
pub mod Launches
pub mod Recoveries
pub mod Lookups
pub mod Kept
pub mod Tests

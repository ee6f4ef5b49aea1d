-- ===== src/Safety.antt =====
-- src/workspace-safety.ts: the tool that admits writers with an operating-system lock and a lease.
pub mod Tool
pub mod Recovery
pub mod Tenure
pub mod Locks
pub mod Exclusion
pub mod Outside
pub mod Tests

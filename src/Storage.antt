-- ===== src/Storage.antt =====
-- src/storage.ts: the registry's writer leases. `Db` has the tables, `Leases` the operations,
-- `Invariant` and `Fencing` what holds of every history of them.
pub mod Db
pub mod Leases
pub mod Recovery
pub mod Moves
pub mod History
pub mod Invariant
pub mod Fencing
pub mod Supersede
pub mod Decision
pub mod Admission
pub mod Tests

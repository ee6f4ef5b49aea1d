-- ===== src/Graph.antt =====
-- src/call-validator.ts and src/call-executor.ts: graphs of tool calls.
pub mod Json
pub mod Schema
pub mod Formats
pub mod Compatible
pub mod Validate
pub mod Conformance
pub mod Sets
pub mod Cycles
pub mod Walks
pub mod Acyclic
pub mod Terminates
pub mod References
pub mod Checker
pub mod Nodes
pub mod Intake
pub mod Rounds
pub mod Exact
pub mod Canonical
pub mod Topology
pub mod Ordering
pub mod Schedule
pub mod Policy
pub mod Pipes
pub mod Spawn
pub mod Settled
pub mod Spawned
pub mod Records
pub mod Execute
pub mod Recording
pub mod Clones
pub mod Cloned
pub mod Snapshot
pub mod Revalidated
pub mod Reproduced
pub mod Replay
pub mod Audited
pub mod Schedulable
pub mod Samples
pub mod FormatTests
pub mod ChildTests
pub mod Tests

-- ===== src/Lib.antt =====
-- superset-agent-orchestrator: a model of the durable core of an orchestrator of coding agents, with
-- theorems about it.
--
-- The program. An MCP server (src/server.ts) lets clients launch agents in workspaces and follow
-- them. Behind it stand the parts that decide who may do what, and what is remembered: the registry
-- of writer leases (src/storage.ts), the tool that admits one writer to a workspace
-- (src/workspace-safety.ts), the durable store of batches, workers, launches, results and the security
-- audit (src/store.ts), and the scheduler that limits how many agents run at once
-- (src/concurrency-scheduler.ts). The tool takes an operating-system lock and then calls the registry.
-- The store and the scheduler are called by the launch and lifecycle services, each on its own.
-- An agent adapter (src/concurrency-limited-agent-adapter.ts) holds a permit of the scheduler for each
-- run of the provider that it wraps.
-- Beside them stand the call validator (src/call-validator.ts), which checks a graph of tool calls
-- without running it, and the call executor (src/call-executor.ts), which runs or replays a valid one.
--
-- The files.
--   Base: tests, lists, sorting and texts that all parts share.
--   Storage: src/storage.ts. Db holds the tables as records and a transaction as a function that
--     changes nothing where it fails; Leases and Recovery hold one function per method
--     (acquireWriterLease is acquire_writer_lease, and so on). Moves and History make the methods the
--     steps of a history; Decision says which request acquireWriterLease grants, and Invariant,
--     Fencing, Supersede and Admission prove what histories keep.
--   Safety: src/workspace-safety.ts. Tool and Recovery hold the operations of WorkspaceSafetyTool, each
--     with the world that it finds (lock files of other processes, the process table); Tenure, Locks,
--     Outside and Exclusion prove what they keep.
--   Store: src/store.ts. State holds the records and the schema of a worker; Workers and Outcomes what
--     each lifecycle method does to a worker; Calls the methods on the whole state, and reconcile;
--     Lookup, Changes, Terminal and Cancellation their theorems; Overdue the workers that a sweep asks
--     for. Audit is the hash chain of the security audit, with its theorems in Fields, Links and
--     Chain. Launch holds the launch intents, with Binding and Reservation; Results holds captureResult,
--     with Authority; Dispatch holds recordLaunchEvent, with Dispatched; Refusals is about
--     recordWorkerResult.
--   Scheduler: src/concurrency-scheduler.ts. Policy and Queue hold the scheduler; an event is a call, an
--     abort, a release, a timer, or the answer of the pressure hooks. Events and Ledger say what an
--     invariant needs; Progress, Limits, Capacity, Order, Settlement, Ids, Identity and Snapshot prove
--     what histories keep.
--   Adapter: src/concurrency-limited-agent-adapter.ts. Permits and Recovery hold
--     ConcurrencyLimitedAgentAdapter over the scheduler: an event is a call, or the answer of the
--     provider to a call that waits. Growth, Core, Admitted, Maps and Books account for the permits;
--     Launches, Recoveries, Lookups and Kept prove that the account is kept.
--     The adapter is taken as the only user of its scheduler, which its constructor is given.
--   Graph: src/call-validator.ts and src/call-executor.ts. Json and Schema hold the values and the
--     schemas, Formats matchesFormat, Compatible the tests of schemas, Validate validateValue,
--     Cycles detectCycles and Checker validateCallGraph; Conformance, References, Walks, Acyclic,
--     Terminates, Nodes, Intake, Rounds and Exact prove which graphs are valid. Canonical holds
--     cloneJson, Topology topologicalOrder with its references, Policy, Records, Snapshot and
--     Execute executeCallGraph; Ordering, Schedule and Schedulable prove that a valid graph is put
--     in order, Audited what the audit says, Clones, Cloned and Revalidated that validateOutput
--     accepts the clone of what it accepts, and Recording, Reproduced and Replay that records
--     replay. Spawn is spawnBounded, as the state that the events of the child process and the
--     timer change; Pipes, Settled and Spawned prove what it resolves with.
--   Each part has its tests in modules named Tests, with a suffix or without.
--
-- Conventions. An instant is its number of milliseconds: the code compares the ISO texts of
-- instants, whose order is the same up to the year 9999. Lifetimes of leases are whole
-- milliseconds, and one that ends after the last instant of a Date is an error. A value that the
-- code compares as JSON is its JSON text. An id or token that the code draws at random is an
-- argument. A thrown error is a value. An operation that persists the state does so whole or not at
-- all, since it writes a file and renames it, or runs in a transaction of SQLite. Operations run
-- one after the other, as the lock of the store and the transactions make them. The interleavings
-- of the scheduler are the orders of its events, at any time and with any answer of the hooks.
-- SHA-256, the redaction of texts, process liveness and what the sandbox prints are parameters; the
-- sandbox is also given how many calls of the execution came before, so that a tool need not answer
-- the same input twice in the same way. Two functions run on fuel, the walk of the cycle detection
-- and the visits of topologicalOrder: one more than the number of nodes is enough for both, as
-- Graph.Terminates and Graph.Schedule prove. Every other loop is a recursion on the list that it
-- walks.
--
-- What is not modelled. SQL text, schema migration, backup and export, files and their permissions,
-- the JSON codecs, the MCP server and its tool schemas, the adapters to provider processes, the
-- launch and lifecycle services, discovery, benchmarks and scripts.
-- Of the store: batches and their pages, and the acceptance of launches.
pub mod Base
pub mod Storage
pub mod Store
pub mod Scheduler
pub mod Adapter
pub mod Safety
pub mod Graph

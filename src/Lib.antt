-- ===== src/Lib.antt =====
-- Verification of the TypeScript services of neuromem: the MCP server that writes memories to
-- Core nodes (apps/mcp), and the registry of nodes and the node manager (apps/manager).
--
-- A write goes through the router (apps/mcp/src/router.ts): it chooses the targets, fixes the
-- record's id, spools the record in the durable retry queue (apps/mcp/src/retry-queue.ts),
-- and delivers it to each target through the Core client (apps/mcp/src/core-client.ts). What
-- a node answers decides whether the pair of record and target leaves the queue or is retried
-- later.
--
-- - Prelude: Boolean tests, lists and texts that the parts share.
-- - Json: JSON values, objects with the order of their keys, and canonicalJson
--   (apps/mcp/src/retry-queue.ts, apps/mcp/src/router.ts).
-- - Uuid: the regular expressions for ids (apps/mcp/src/retry-queue.ts,
--   apps/mcp/src/router.ts, apps/mcp/src/config.ts).
-- - Ids: uuid7 with its monotonic counter (apps/mcp/src/ids.ts), and uuid7OccurredAt of the
--   router.
-- - CoreClient: how a response becomes a value or a CoreRequestError.
-- - RetryQueue: DurableRetryQueue. Store has the three parts of its directory, Writes
--   enqueueRecord, markPending and resolve, Reads list, readRecord and count, Reconcile the
--   repair at start, Idempotency the registry of idempotency keys, Actions the histories of
--   calls, crashes and restarts. Spool, Entries, Rebuild, Consistency, Enqueueing,
--   Resolution, Recovery, Untouched, Faults (writes that throw), Durability, Backoff,
--   Listing, Keys and Answers are the proofs; Pending is the abstract set of pending pairs,
--   and Refinement the proof that the files implement it.
-- - Router: Targets has the configuration and the choice of targets, Delivery the delivery
--   and the retries, Settled its proof, Bounded the bound on the size of results.
-- - Nodes: StateStore (apps/manager/src/state.ts). State has the registry and its validation,
--   Mutations addNode, updateNode, removeNode, findNode and defaultNode, Operations the
--   operation records, Lock the lock of a node, with each access to the file system as a step
--   of its own; Valid and Laws are the proofs.
-- - Tools: MemoryToolDispatcher for a credential (apps/mcp/src/tools.ts): the checks of the
--   arguments and capabilities; Control has the calls of the Control Gateway, Legacy those of
--   the memory router in the hybrid mode; Scope and Router are the proofs.
-- - Rpc: dispatchRpc (apps/mcp/src/rpc.ts), rpcEnvelope and boundBatchReplies
--   (apps/mcp/src/http.ts), with their proofs in Envelope and Batch.
-- - Http: the session table, the limits and the handler of createMcpHttpServer
--   (apps/mcp/src/http.ts); Capacity and Pinning are the proofs.
-- - Manager: NodeManager (apps/manager/src/node-manager.ts) for one node. World has the state
--   and the monad of its calls, Status the status and the wait for a node, Backups the
--   manifests and the snapshots, Staging the candidate database, Generations restorePlan,
--   cutover and restoreApply, Migration migrationApply, Lifecycle the operations that keep
--   the generation, Restart the recovery at a start. Kept, Ends, Journal, Atomic,
--   Replacement, Restoring, Outcome, Rollable, Recovery, Restarts and Migrating are the
--   proofs that a restore and a migration are atomic, Keeps and Routine the proof for
--   Lifecycle, Ports allocatePorts and Allocated its proof, Unused the proof that the search
--   for a generation ends.
-- - FolderSources: load, attach and detach of FolderSourceManager
--   (apps/manager/src/folder-sources.ts); Loadable and Attached are the proofs.
-- - Tests: concrete runs.
--
-- State is passed explicitly: an operation of the queue is a function on its store that
-- returns the result or the error with the store it leaves. The clock, random bytes, SHA-256
-- and the answers of the nodes are arguments. Times are milliseconds. Loops are structural
-- recursion, with two exceptions. The waits of the manager have a deadline and sleep a second
-- in each round, so 180 and 120 rounds are enough; the search for an unused generation has
-- one round more than there are volumes, and the proof that this is enough is in
-- Manager/Unused. The calls of the manager run in a monad in which every call outside may
-- throw, every step may be the one at which the process dies, and what a call outside gives
-- is an argument. Numbers of the id generator have the masks of the source written out.
--
-- A request to the HTTP server runs to its end before the next one is handled, though any
-- number may have arrived and be counted.
--
-- Not modelled: errors of the file system, other than those that RetryQueue/Faults, the
-- manager's calls outside and the cancelling of a response have (elsewhere a write of a
-- program's own file is done or the process dies), the recovery of model configurations at a
-- start, what Docker does, other nodes and other calls of the manager at the same time, how a
-- credential is authenticated, the file lock between processes (operations of the queue run
-- one at a time), the atomic replacement of a file (a write happens or not), spool files that
-- are not JSON, the network below `fetch`, and the Python services.
pub mod Prelude
pub mod Json
pub mod Uuid
pub mod Ids
pub mod CoreClient
pub mod RetryQueue
pub mod Nodes
pub mod Router
pub mod Tools
pub mod Rpc
pub mod Http
pub mod Manager
pub mod FolderSources
pub mod Tests

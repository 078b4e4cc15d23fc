-- ===== src/RetryQueue.antt =====
-- The durable retry queue of the MCP adapter (apps/mcp/src/retry-queue.ts).
pub mod Store
pub mod Writes
pub mod Reads
pub mod Reconcile
pub mod Idempotency
pub mod Spool
pub mod Entries
pub mod Rebuild
pub mod Consistency
pub mod Enqueueing
pub mod Faults
pub mod Resolution
pub mod Recovery
pub mod Actions
pub mod Untouched
pub mod Durability
pub mod Pending
pub mod Refinement
pub mod Backoff
pub mod Listing
pub mod Keys
pub mod Answers

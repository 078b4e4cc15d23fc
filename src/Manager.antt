-- ===== src/Manager.antt =====
-- The node manager (apps/manager/src/node-manager.ts), by its parts.
pub mod World
pub mod Status
pub mod Backups
pub mod Staging
pub mod Generations
pub mod Restart
pub mod Kept
pub mod Ends
pub mod Journal
pub mod Atomic
pub mod Replacement
pub mod Restoring
pub mod Outcome
pub mod Restarts
pub mod Unused
pub mod Migration
pub mod Migrating
pub mod Lifecycle
pub mod Keeps
pub mod Routine
pub mod Ports
pub mod Allocated
pub mod Rollable
pub mod Recovery

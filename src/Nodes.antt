-- ===== src/Nodes.antt =====
-- The registry of nodes of the manager (apps/manager/src/state.ts), by its parts.
pub mod State
pub mod Mutations
pub mod Operations
pub mod Lock
pub mod Valid
pub mod Laws

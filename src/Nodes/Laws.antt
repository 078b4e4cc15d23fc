-- ===== src/Nodes/Laws.antt =====
-- What the operations of the node registry keep and give (apps/manager/src/state.ts).
pub mod Registered
pub mod Removal
pub mod Addition
pub mod Recovery
pub mod Exclusion

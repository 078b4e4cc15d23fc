-- ===== src/Router.antt =====
-- FederatedMemoryRouter (apps/mcp/src/router.ts).
pub mod Targets
pub mod Delivery
pub mod Settled
pub mod Bounded

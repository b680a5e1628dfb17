-- ===== src/Identity.antt =====
-- The identity service (internal/identity).
pub mod Service
pub mod Sync
pub mod Local
mod Examples

-- ===== src/Domains.antt =====
-- Mail domains (internal/domain): the repository with the cascades of its delete, and the service.
pub mod Repository
pub mod Service
mod Examples

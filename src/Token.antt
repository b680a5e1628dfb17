-- ===== src/Token.antt =====
-- API bearer tokens (internal/api/token): the repository, the manager, and what they guarantee.
pub mod Store
pub mod Manager
pub mod Rows
pub mod Revocation
pub mod Rotation
pub mod Issue
mod Examples

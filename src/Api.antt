-- ===== src/Api.antt =====
-- The HTTP middleware (internal/api/middleware): roles and rate limits.
pub mod Access
pub mod RateLimit
pub mod Router
mod Examples

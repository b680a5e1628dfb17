-- ===== src/Ldap.antt =====
-- LDAP search filters (internal/identity/ldap/filter.go).
pub mod Filter
pub mod Escape
mod Examples

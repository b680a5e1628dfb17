-- ===== src/Dkim.antt =====
-- internal/dkim: the keys that sign a domain's mail, their files, their DNS records and the domain's mail policy.
pub mod Model
pub mod Selector
pub mod Record
pub mod Keystore
pub mod Repository
pub mod Keys
pub mod Verification
pub mod Policy
mod Examples

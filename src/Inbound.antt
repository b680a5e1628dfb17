-- ===== src/Inbound.antt =====
-- Inbound mail security (internal/inbound): SPF, DMARC, the verdict, the headers and the rate
-- limits.
pub mod Model
pub mod Spf
pub mod Dmarc
pub mod Recipient
pub mod Verdict
pub mod RateLimit
mod Examples

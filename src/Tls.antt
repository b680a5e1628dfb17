-- ===== src/Tls.antt =====
-- internal/tls. encoding/pem, crypto/x509 and the hash are the parameter `Library`. Times are nanoseconds; the messages
-- of a report are left out, and the days that remain are divided exactly, where the code divides in floating point.
pub mod Model
pub mod Validation
pub mod Store
pub mod Parsing
pub mod Replace
pub mod Renewal
pub mod Loading
mod Examples

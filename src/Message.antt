-- ===== src/Message.antt =====
-- Messages (internal/message) and the blobs that hold their bytes (internal/storage).
pub mod Blobs
pub mod Service
mod Examples

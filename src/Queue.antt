-- ===== src/Queue.antt =====
-- internal/queue: Postfix's mail queue, read from the output of its commands and changed by them.
pub mod Parser
pub mod Service
mod Examples

-- ===== src/Mailbox.antt =====
-- Mailboxes (internal/mailbox): the repository, the service, and the hashing of passwords.
pub mod Model
pub mod Repository
pub mod Rows
pub mod Aliases
pub mod Password
pub mod Service
mod Examples

-- ===== src/Directory.antt =====
-- The tables that the account services share (migrations/, internal/domain/model.go,
-- internal/mailbox/model.go): domains, mailboxes and aliases, with their keys.
pub mod Tables

-- ===== src/Webmail.antt =====
-- internal/webmail: the mail of an account, read and changed in its Maildir.
pub mod Folders
pub mod Confinement
pub mod Writes
pub mod Messages
pub mod Pages
mod Examples

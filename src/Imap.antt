-- ===== src/Imap.antt =====
-- The imap modules: folder names and the sync of folders.
pub mod Folders
pub mod Plan
pub mod Sync
pub mod Download
mod Tests

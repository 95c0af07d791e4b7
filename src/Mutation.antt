-- ===== src/Mutation.antt =====
-- The changes a user makes to a message on the server, and to the local rows that mirror it.
pub mod Plan
pub mod Remote
pub mod Discovery
pub mod World
pub mod Prepare
pub mod Command
pub mod Runner
pub mod Tests

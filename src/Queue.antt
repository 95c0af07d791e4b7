-- ===== src/Queue.antt =====
-- queue.rs and queue_runner.rs: the durable queue of deferred commands and its execution.
pub mod Item
pub mod World
pub mod Runner
mod Directory
mod Ends
mod Delivery
pub mod AtMostOnce
pub mod Reach
pub mod Retry
pub mod Denied
mod History
mod Tests

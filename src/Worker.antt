-- ===== src/Worker.antt =====
-- backend/app/workers and backend/app/streams: the worker that takes dispatch tasks from the queue.
pub mod Retry
pub mod Effects
pub mod Emits
pub mod Message
pub mod Calls
pub mod Graph
pub mod Process
pub mod Receive
mod Tests

-- ===== src/Streams.antt =====
-- The messages of the dispatch stream: backend/app/streams/models.py.
pub mod Json
pub mod Task
pub mod DeadLetter
mod Tests

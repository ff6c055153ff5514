-- ===== src/Events.antt =====
-- backend/app/events: the events of a task, for those who watch it.
pub mod Broker

-- ===== src/Events.antt =====
-- src/core/event-system: the events of clients, from the queue to the database.
pub mod Payloads
pub mod Worker
pub mod Persisting
pub mod Settling
pub mod Reliable
pub mod Conserving
mod Tests

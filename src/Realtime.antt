-- ===== src/Realtime.antt =====
-- src/realtime: events and their audience, rooms and who may join them, and the in-memory log
-- that a client which reconnects replays from.
pub mod Events
pub mod Rooms
pub mod Joining
pub mod Subscribe
pub mod EventLog
pub mod Service

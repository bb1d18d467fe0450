-- ===== src/Realtime/EventLog.antt =====
-- src/realtime/event-log.ts: the bounded log of recent events, a room at a time. The `Map` of
-- rooms is the list of its entries in insertion order, the least recently used first.
pub mod Store
pub mod Bounds
pub mod Sequence
pub mod Replay

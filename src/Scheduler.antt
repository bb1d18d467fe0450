-- ===== src/Scheduler.antt =====
-- src/scheduler: when a failed job runs again, the queue of jobs and the drainer that works it
-- off, and what the readiness probe makes of the ticks.
pub mod Backoff
pub mod Readiness
pub mod Queue
pub mod Drainer

-- ===== src/Idempotency.antt =====
-- Idempotency keys of src/idempotency: the table of claims, the interceptor that runs a handler
-- once for a key, and the retention sweep.
pub mod Records
pub mod Claim
pub mod Interceptor
pub mod Guarding
pub mod Keeping
pub mod Histories
pub mod Retries

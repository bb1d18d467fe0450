-- ===== src/RateLimit.antt =====
-- src/rate-limit: counting requests in fixed windows, and refusing those beyond the limit.
pub mod FixedWindow
pub mod Keys
pub mod ClientIp
pub mod Counter
pub mod Admission
pub mod Waiting

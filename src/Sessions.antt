-- ===== src/Sessions.antt =====
-- Refresh tokens of src/auth: their life, their table, and the rotation of a session.
pub mod Lifecycle
pub mod Tokens
pub mod Rotation
pub mod Spending
pub mod Families
pub mod Histories
pub mod Succession
pub mod Reuse

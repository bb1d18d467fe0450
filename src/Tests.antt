-- ===== src/Tests.antt =====
-- Concrete runs: that the hypotheses of the theorems can be met, and what the code does on them.
mod Samples
mod Access
mod Live
mod Jobs
mod Desk
mod Talk
mod Limits
mod Logins
mod Keys
mod Lists
mod Posts
mod Sweeps

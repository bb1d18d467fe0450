-- ===== src/Outbound.antt =====
-- The outbound half of the Slack channel, src/outbound and src/slack: what is dispatched, and the
-- delivery of it.
pub mod Target
pub mod Deliveries
pub mod Dispatch
pub mod Delivery
pub mod Settling
pub mod Spared
pub mod Sparing
pub mod Once

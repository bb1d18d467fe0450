-- ===== src/Sla.antt =====
-- The sweeps of src/sla.
pub mod Breach
pub mod Dwell
pub mod Latching
pub mod Moves
pub mod Settles

-- ===== src/Driver.antt =====
-- The parts of crates/ziggurat-driver that are models of their own.
pub mod BroadcastBudget

-- ===== src/Protocol.antt =====
-- The parts of crates/ziggurat-protocol that are models of their own.
pub mod SendTracker

-- ===== src/Spinel.antt =====
-- The parts of crates/ziggurat-spinel that are modelled, all of src/lib.rs there.
pub mod Packed
pub mod Hdlc
pub mod Stream
pub mod Frames
pub mod Inbound
pub mod Requests
pub mod Bytes

-- ===== src/Nwk.antt =====
-- crates/ziggurat-zigbee/src/nwk: the network layer's tables and decisions.
pub mod Security
pub mod Addresses
pub mod Broadcasts
pub mod Routing
pub mod Frame
pub mod NextHop
pub mod Neighbors

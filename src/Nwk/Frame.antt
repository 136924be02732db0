-- ===== src/Nwk/Frame.antt =====
-- crates/ziggurat-zigbee/src/nwk/frame.rs: the network header.
use ziggurat.Base.{ℕ, Bool, Option, List}
use ziggurat.Types.{Nwk, Eui64}

pub data NwkFrameType : Type 0 where
  data_frame command interpan : NwkFrameType

pub data NwkRouteDiscovery : Type 0 where
  suppress enable with_multicast : NwkRouteDiscovery

pub record NwkFrameControl : Type 0 where
  pub frame_type : NwkFrameType
  pub protocol_version : ℕ
  pub discover_route : NwkRouteDiscovery
  pub multicast : Bool
  pub security : Bool
  pub source_route : Bool
  pub destination : Bool
  pub extended_source : Bool
  pub end_device_initiator : Bool
  pub reserved1 : ℕ

pub record NwkSourceRoute : Type 0 where
  pub relay_index : ℕ
  pub relays : List Nwk

pub record NwkHeader : Type 0 where
  pub frame_control : NwkFrameControl
  pub destination : Nwk
  pub source : Nwk
  pub radius : ℕ
  pub sequence_number : ℕ
  pub destination_ieee : Option Eui64
  pub source_ieee : Option Eui64
  pub multicast_control : Option ℕ
  pub source_route : Option NwkSourceRoute

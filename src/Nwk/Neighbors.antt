-- ===== src/Nwk/Neighbors.antt =====
-- crates/ziggurat-zigbee/src/nwk/neighbors.rs: the neighbor table, its entries and the questions asked
-- of it. The changes are in `Children` and `Links`.
pub mod Children
pub mod Links
pub mod Samples
pub mod Valid
pub mod Changes
pub mod Removals
pub mod Histories
use ziggurat.Base.{
  ℕ, zero, suc, ◌+◌, ◌-◌, ◌≡◌, Bool, true, false, not, Option, none, some, List, [], ◌∷◌, map,
  if◌then◌else◌, ◌==◌, leb, ltb, ◌&&◌, ◌||◌, find, filterb, any, length, get_elem?, is_none,
  is_some,
}
use ziggurat.Base.Order.{nat_ord}
use ziggurat.Types.{Nwk, Eui64}
use ziggurat.FlatMap
use ziggurat.FlatMap.{FlatMap}
use ziggurat.RingBuffer
use ziggurat.RingBuffer.{RingBuffer, push, is_full, stored}
use ziggurat.Nwk.Frame.{NwkHeader}
use mathlib.Core.Option

abbrev pub link_quality_samples : ℕ
link_quality_samples = 3

abbrev pub pending_lqa_cap : ℕ
pending_lqa_cap = 64

-- `RingBuffer<u8, 3>`, and its default.
abbrev pub LqaSamples : Type 0
LqaSamples = RingBuffer ℕ

abbrev pub no_samples : LqaSamples
no_samples = RingBuffer.new link_quality_samples 0

-- The ranges of the `match`, from the bottom.
abbrev pub lqi_to_link_cost : ℕ → ℕ
lqi_to_link_cost lqi =
    if leb lqi 16
    then 7
    else (if leb lqi 32
        then 6
        else (if leb lqi 64
            then 5
            else (if leb lqi 96
                then 4
                else (if leb lqi 128 then 3 else (if leb lqi 192 then 2 else 1)))))

pub data NwkDeviceType : Type 0 where
  coordinator router end_device : NwkDeviceType

abbrev pub is_router : NwkDeviceType → Bool
is_router NwkDeviceType.router = true
is_router _ = false

abbrev pub is_end_device : NwkDeviceType → Bool
is_end_device NwkDeviceType.end_device = true
is_end_device _ = false

pub data Relationship : Type 0 where
  parent child sibling none_of_the_above previous_child : Relationship
  unauthenticated_child unauthorized_child_with_relay_allowed lost_child : Relationship
  address_conflict_child backbone_mesh_sibling : Relationship

pub record TableEntry : Type 0 where
  pub extended_address : Eui64
  pub network_address : Nwk
  pub device_type : NwkDeviceType
  pub rx_on_when_idle : Bool
  pub end_device_configuration : ℕ
  pub timeout_at : ℕ
  pub device_timeout : ℕ
  pub relationship : Relationship
  pub transmit_failure : ℕ
  pub lqas : LqaSamples
  pub outgoing_cost : ℕ
  pub last_link_status_timestamp : ℕ
  pub incoming_beacon_timestamp : ℕ
  pub beacon_transmission_time_offset : ℕ
  pub keepalive_received : Bool
  pub mac_unicast_bytes_transmitted : ℕ
  pub mac_unicast_bytes_received : ℕ
  pub router_added_timestamp : ℕ
  pub router_connectivity : ℕ
  pub router_neighbor_set_diversity : ℕ
  pub router_outbound_activity : ℕ
  pub router_inbound_activity : ℕ
  pub security_timer : ℕ

-- `sort_unstable`, by its result.
unfoldable pub place : ℕ → List ℕ → List ℕ
place x [] = x ∷ []
place x (y ∷ ys) = let rest = place x ys in if leb x y then x ∷ y ∷ ys else y ∷ rest

unfoldable pub sort_unstable : List ℕ → List ℕ
sort_unstable [] = []
sort_unstable (x ∷ xs) = place x (sort_unstable xs)

-- The number of samples is odd, so the median is the middle one.
unfoldable pub lqa : TableEntry → Option ℕ
lqa e = if is_full e.lqas then get_elem? (sort_unstable (stored e.lqas)) 1 else none

unfoldable pub incoming_link_cost : TableEntry → ℕ
incoming_link_cost e = elim (lqa e) [ none ↦ 0 | some q ↦ lqi_to_link_cost q ]

abbrev pub is_child : TableEntry → Bool
is_child e = elim e.relationship [
  | Relationship.child ↦ true
  | Relationship.unauthenticated_child ↦ true
  | _ ↦ false
]

pub record NeighborLink : Type 0 where
  pub eui64 : Eui64
  pub outgoing_cost : ℕ
  pub incoming_cost : ℕ

abbrev pub NeighborTable : Type 0
NeighborTable = FlatMap Eui64 TableEntry

pub record Neighbors : Type 0 where
  pub table : NeighborTable
  pub pending_lqas : FlatMap Nwk LqaSamples

pub default : Neighbors
default = record { table = FlatMap.new; pending_lqas = FlatMap.new }

-- `if let Some(e) = values_mut().find(p) { e = f(e) }`; `none` where no entry is found.
unfoldable pub modify_first :
    (TableEntry → Bool)
    → (TableEntry → TableEntry)
    → List (Eui64 × TableEntry)
    → Option (List (Eui64 × TableEntry))
modify_first p f [] = none
modify_first p f ((k, e) ∷ es) =
    let rest = Option.map (λ l. (k, e) ∷ l) (modify_first p f es) in
    if p e then some ((k, f e) ∷ es) else rest

abbrev pub at_address : Nwk → TableEntry → Bool
at_address nwk e = e.network_address == nwk

abbrev pub sample : ℕ → TableEntry → TableEntry
sample lqi e = record e { lqas = push e.lqas lqi }

-- The buffer of a sender without an entry: full, it first drops the lowest address.
unfoldable pub buffer_lqa : FlatMap Nwk LqaSamples → Nwk → ℕ → FlatMap Nwk LqaSamples
buffer_lqa pending sender lqi =
    let room =
      if leb pending_lqa_cap (FlatMap.len pending) && not (FlatMap.contains_key pending sender)
      then (FlatMap.pop_first pending).0
      else pending in
    FlatMap.modify (FlatMap.or_insert room sender no_samples).0 sender (λ r. push r lqi)

unfoldable pub record_lqa : Neighbors → Nwk → ℕ → Neighbors
record_lqa n sender lqi = elim (modify_first (at_address sender) (sample lqi) n.table.entries) [
  | some es ↦ record n { table = record { entries = es } }
  | none ↦ record n { pending_lqas = buffer_lqa n.pending_lqas sender lqi }
]

unfoldable pub link : Neighbors → Nwk → Option NeighborLink
link n nwk =
    Option.map
      (λ e. record {
        eui64 = e.extended_address;
        outgoing_cost = e.outgoing_cost;
        incoming_cost = incoming_link_cost e;
      })
      (find (at_address nwk) (FlatMap.values n.table))

unfoldable pub has_network_address : Neighbors → Nwk → Bool
has_network_address n nwk = any (at_address nwk) (FlatMap.values n.table)

abbrev pub is_end_device_child : TableEntry → Bool
is_end_device_child e = is_child e && is_end_device e.device_type

-- `find_map` with a guard.
abbrev pub address_of_first : (TableEntry → Bool) → Neighbors → Option Eui64
address_of_first p n = Option.map (λ e. e.extended_address) (find p (FlatMap.values n.table))

unfoldable pub end_device_child_eui64 : Neighbors → Nwk → Option Eui64
end_device_child_eui64 n nwk =
    address_of_first (λ e. at_address nwk e && is_end_device e.device_type && is_child e) n

-- The Boolean tells whether the bit was cleared.
unfoldable pub clear_end_device_initiator_for_relay : Neighbors → NwkHeader → NwkHeader × Bool
clear_end_device_initiator_for_relay n header =
    if not header.frame_control.end_device_initiator
      || is_none (end_device_child_eui64 n header.source)
    then (header, false)
    else (
      record header {
        frame_control = record (header.frame_control) { end_device_initiator = false };
      },
      true,
    )

unfoldable pub sleepy_child_eui64 : Neighbors → Nwk → Option Eui64
sleepy_child_eui64 n nwk =
    address_of_first (λ e. at_address nwk e && not e.rx_on_when_idle && is_child e) n

abbrev pub addresses : TableEntry → Eui64 × Nwk
addresses e = (e.extended_address, e.network_address)

unfoldable pub sleepy_children : Neighbors → List (Eui64 × Nwk)
sleepy_children n =
    map addresses (filterb (λ e. not e.rx_on_when_idle && is_child e) (FlatMap.values n.table))

unfoldable pub contains : Neighbors → Eui64 → Bool
contains n eui64 = FlatMap.contains_key n.table eui64

unfoldable pub device_capability : Neighbors → Eui64 → Option (NwkDeviceType × Bool)
device_capability n eui64 =
    Option.map (λ e. (e.device_type, e.rx_on_when_idle)) (FlatMap.get n.table eui64)

unfoldable pub end_device_child_count : Neighbors → ℕ
end_device_child_count n = length (filterb is_end_device_child (FlatMap.values n.table))

-- ===== src/Nwk/Neighbors/Children.antt =====
-- crates/ziggurat-zigbee/src/nwk/neighbors.rs: children, from attachment and keepalives to removal.
pub mod Eviction
use ziggurat.Base.{
  ℕ, min, Bool, true, false, not, Option, none, some, List, [], ◌∷◌, map, if◌then◌else◌, ◌==◌, leb,
  ◌&&◌, filterb, is_some,
}
use ziggurat.Base.Order.{nat_ord}
use ziggurat.Types.{Nwk, Eui64}
use ziggurat.FlatMap
use ziggurat.FlatMap.{FlatMap}
use ziggurat.Time.{later}
use ziggurat.Nwk.Neighbors.{
  Neighbors, NeighborTable, TableEntry, NwkDeviceType, Relationship, is_end_device, is_child,
  is_end_device_child, at_address, addresses, modify_first, no_samples,
}
use mathlib.Core.Option

abbrev pub refreshed : ℕ → TableEntry → TableEntry
refreshed now e = record e { timeout_at = later now e.device_timeout; keepalive_received = true }

-- A write to the first entry that passes the test, and whether there is one.
abbrev pub change_first :
    (TableEntry → Bool) → (TableEntry → TableEntry) → Neighbors → Neighbors × Bool
change_first p f n = elim (modify_first p f n.table.entries) [
  | some es ↦ (record n { table = record { entries = es } }, true)
  | none ↦ (n, false)
]

abbrev pub refresh_at : Neighbors → Option Nwk → ℕ → Neighbors × Bool
refresh_at n none now = (n, false)
refresh_at n (some nwk) now = change_first (at_address nwk) (refreshed now) n

unfoldable pub refresh_child_timeout : Neighbors → Option Eui64 → Option Nwk → ℕ → Neighbors × Bool
refresh_child_timeout n none nwk now = refresh_at n nwk now
refresh_child_timeout n (some eui64) nwk now =
    if is_some (FlatMap.get n.table eui64)
    then (record n { table = FlatMap.modify n.table eui64 (refreshed now) }, true)
    else refresh_at n nwk now

unfoldable pub set_child_timeout : Neighbors → Nwk → ℕ → ℕ → ℕ → Neighbors × Bool
set_child_timeout n nwk timeout configuration now =
    change_first (λ e. at_address nwk e && is_child e && is_end_device e.device_type)
      (λ e. record e {
        device_timeout = timeout;
        timeout_at = later now timeout;
        end_device_configuration = configuration;
        keepalive_received = true;
      })
      n

unfoldable pub update_network_address : Neighbors → Eui64 → Nwk → Neighbors
update_network_address n eui64 nwk = record n {
  table =
      FlatMap.modify n.table eui64
        (λ e. if e.network_address == nwk then e else record e { network_address = nwk });
}

unfoldable pub take_child : Neighbors → Eui64 → Neighbors × Option Nwk
take_child n eui64 = elim (FlatMap.get n.table eui64) [
  | none ↦ (n, none)
  | some e ↦
      if is_child e
      then (let (table, old) = FlatMap.remove n.table eui64 in
          (record n { table = table }, Option.map (λ x. x.network_address) old))
      else (n, none)
]

unfoldable pub end_device_children : Neighbors → List Eui64
end_device_children n =
    map (λ e. e.extended_address) (filterb is_end_device_child (FlatMap.values n.table))

unfoldable pub is_unconfirmed_end_device_child : Neighbors → Eui64 → Bool
is_unconfirmed_end_device_child n eui64 = elim (FlatMap.get n.table eui64) [
  | none ↦ false
  | some e ↦ is_end_device_child e && not e.keepalive_received
]

-- The loop over the claimed addresses, and what it removes.
unfoldable pub remove_claimed : NeighborTable → List Eui64 → NeighborTable × List (Eui64 × Nwk)
remove_claimed table [] = (table, [])
remove_claimed table (eui64 ∷ rest) = elim (FlatMap.get table eui64) [
  | none ↦ remove_claimed table rest
  | some e ↦
      let (t, removed) =
        remove_claimed
          (if is_end_device e.device_type then (FlatMap.remove table eui64).0 else table) rest in
      (t, if is_end_device e.device_type then (eui64, e.network_address) ∷ removed else removed)
]

unfoldable pub remove_claimed_children : Neighbors → List Eui64 → Neighbors × List (Eui64 × Nwk)
remove_claimed_children n claimed =
    let (table, removed) = remove_claimed n.table claimed in (record n { table = table }, removed)

pub record Announced : Type 0 where
  pub table : NeighborTable
  pub claimed : List Eui64
  pub removed : List (Eui64 × Nwk)

-- One announced device: no end device of ours, ours for sure, or stale.
abbrev pub announce : Option TableEntry → Eui64 → Announced → Announced
announce none eui64 rest = rest
announce (some e) eui64 rest =
    if is_end_device e.device_type
    then (if e.keepalive_received
        then record rest { claimed = eui64 ∷ rest.claimed }
        else record rest { removed = (eui64, e.network_address) ∷ rest.removed })
    else rest

abbrev pub is_stale : Option TableEntry → Bool
is_stale none = false
is_stale (some e) = is_end_device e.device_type && not e.keepalive_received

unfoldable pub process_announced : NeighborTable → List Eui64 → Announced
process_announced table [] = record { table = table; claimed = []; removed = [] }
process_announced table (eui64 ∷ rest) =
    let known = FlatMap.get table eui64 in
    let next =
      process_announced (if is_stale known then (FlatMap.remove table eui64).0 else table) rest in
    announce known eui64 next

unfoldable pub process_parent_annce :
    Neighbors → List Eui64 → Neighbors × List Eui64 × List (Eui64 × Nwk)
process_parent_annce n announced =
    let a = process_announced n.table announced in
    (record n { table = a.table }, a.claimed, a.removed)

abbrev pub is_timed_out : ℕ → TableEntry → Bool
is_timed_out now e = is_end_device_child e && leb e.timeout_at now

unfoldable pub remove_all : NeighborTable → List (Eui64 × Nwk) → NeighborTable
remove_all table [] = table
remove_all table (a ∷ rest) = remove_all (FlatMap.remove table a.0).0 rest

unfoldable pub evict_timed_out_children : Neighbors → ℕ → Neighbors × List (Eui64 × Nwk)
evict_timed_out_children n now =
    let evicted = map addresses (filterb (is_timed_out now) (FlatMap.values n.table)) in
    (record n { table = remove_all n.table evicted }, evicted)

pub record ChildDescriptor : Type 0 where
  pub eui64 : Eui64
  pub network_address : Nwk
  pub device_type : NwkDeviceType
  pub rx_on_when_idle : Bool
  pub device_timeout : ℕ
  pub relationship : Relationship

abbrev pub new_child : ChildDescriptor → ℕ → TableEntry
new_child c now = record {
  extended_address = c.eui64;
  network_address = c.network_address;
  device_type = c.device_type;
  rx_on_when_idle = c.rx_on_when_idle;
  end_device_configuration = 0;
  timeout_at = later now c.device_timeout;
  device_timeout = c.device_timeout;
  relationship = Relationship.child;
  transmit_failure = 0;
  lqas = no_samples;
  outgoing_cost = 0;
  last_link_status_timestamp = now;
  incoming_beacon_timestamp = 0;
  beacon_transmission_time_offset = 0;
  keepalive_received = false;
  mac_unicast_bytes_transmitted = 0;
  mac_unicast_bytes_received = 0;
  router_added_timestamp = now;
  router_connectivity = 0;
  router_neighbor_set_diversity = 0;
  router_outbound_activity = 0;
  router_inbound_activity = 0;
  security_timer = 0;
}

abbrev pub attached : ChildDescriptor → ℕ → TableEntry → TableEntry
attached c now e = record e {
  network_address = c.network_address;
  device_type = c.device_type;
  rx_on_when_idle = c.rx_on_when_idle;
  device_timeout = c.device_timeout;
  timeout_at = later now c.device_timeout;
  relationship = c.relationship;
}

unfoldable pub upsert_child : Neighbors → ChildDescriptor → ℕ → Neighbors
upsert_child n c now = record n {
  table =
      FlatMap.modify (FlatMap.or_insert n.table c.eui64 (new_child c now)).0 c.eui64
        (attached c now);
}

unfoldable pub remove : Neighbors → Eui64 → Neighbors
remove n eui64 = record n { table = (FlatMap.remove n.table eui64).0 }

-- `Iterator::min`.
unfoldable pub minimum : List ℕ → Option ℕ
minimum [] = none
minimum (x ∷ xs) = elim (minimum xs) [ none ↦ some x | some y ↦ some (min x y) ]

unfoldable pub next_child_timeout : Neighbors → Option ℕ
next_child_timeout n =
    minimum (map (λ e. e.timeout_at) (filterb is_end_device_child (FlatMap.values n.table)))

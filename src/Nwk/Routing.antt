-- ===== src/Nwk/Routing.antt =====
-- crates/ziggurat-zigbee/src/nwk/routing.rs: the route table, the discovery table and the route
-- records, with the operations on single entries. Route requests and replies are in `Discovery`.
pub mod Discovery
pub mod Records
pub mod Replies
use ziggurat.Base.{
  ℕ, zero, suc, ◌≡◌, Bool, true, false, not, Option, none, some, List, [], ◌∷◌, if◌then◌else◌, ◌==◌,
  ltb, leb, length, last, is_some, is_none, u8_max, u32_max, saturating_add, saturating_sub, ◌&&◌,
  ◌||◌, Result, ok, err,
}
use ziggurat.Types.{Nwk, Eui64}
use ziggurat.Base.Order.{nat_ord, pair_ord}
use ziggurat.FlatMap
use ziggurat.FlatMap.{FlatMap}
use mathlib.Core.Option

abbrev pub unknown_next_hop : Nwk
unknown_next_hop = 0xFFFF

abbrev pub broadcast_all_routers_and_coordinator : Nwk
broadcast_all_routers_and_coordinator = 0xFFFC

pub data Status : Type 0 where
  active discovery_underway discovery_failed inactive : Status

abbrev pub is_active : Status → Bool
is_active Status.active = true
is_active _ = false

abbrev pub is_underway : Status → Bool
is_underway Status.discovery_underway = true
is_underway _ = false

pub record TableEntry : Type 0 where
  pub destination : Nwk
  pub status : Status
  pub no_route_cache : Bool
  pub many_to_one : Bool
  pub route_record_required : Bool
  pub expired : Bool
  pub next_hop_address : Nwk
  pub path_cost : ℕ
  pub total_usage_count : ℕ
  pub recent_activity : ℕ

abbrev pub new_entry : Nwk → Status → Nwk → TableEntry
new_entry destination status hop = record {
  destination = destination;
  status = status;
  no_route_cache = false;
  many_to_one = false;
  route_record_required = false;
  expired = false;
  next_hop_address = hop;
  path_cost = u8_max;
  total_usage_count = 0;
  recent_activity = 0;
}

-- `Some(a) != Some(next_hop)` for the next hop that an active entry had.
abbrev pub points_elsewhere : TableEntry → Nwk → Bool
points_elsewhere e hop = not (is_active e.status && (e.next_hop_address == hop))

-- The entry routed through a hop at a cost.
abbrev pub routed : TableEntry → Nwk → ℕ → TableEntry
routed e hop cost = record e { status = Status.active; next_hop_address = hop; path_cost = cost }

-- `TableEntry::consider_route`. The Boolean tells of a change.
unfoldable pub consider_route : TableEntry → Nwk → ℕ → TableEntry × Bool
consider_route e hop cost =
    if is_active e.status && leb e.path_cost cost
    then (e, false)
    else (routed e hop cost, points_elsewhere e hop)

pub record DiscoveryEntry : Type 0 where
  pub route_request_id : ℕ
  pub source_address : Nwk
  pub sender_address : Nwk
  pub forward_cost : ℕ
  pub residual_cost : ℕ
  pub expiration_time : ℕ
  pub destination_address : Nwk

pub data Route : Type 0 where
  next_hop : Nwk → Route
  source_routed : List Nwk → Route

pub record RouteUpdate : Type 0 where
  pub destination : Nwk
  pub next_hop : Nwk
  pub path_cost : ℕ

pub record Routing : Type 0 where
  pub mtorr_route_errors : ℕ
  pub mtorr_delivery_failures : ℕ
  pub route_table : FlatMap Nwk TableEntry
  pub discovery_table : FlatMap (Nwk × ℕ) DiscoveryEntry
  pub route_record_table : FlatMap Nwk (List Nwk)
  pub request_sequence_number : ℕ

unfoldable pub default : Routing
default = record {
  mtorr_route_errors = 0;
  mtorr_delivery_failures = 0;
  route_table = FlatMap.new;
  discovery_table = FlatMap.new;
  route_record_table = FlatMap.new;
  request_sequence_number = 0;
}

pub note_route_error : Routing → ℕ → Routing × Bool
note_route_error r threshold =
    let errors = saturating_add u8_max r.mtorr_route_errors 1 in
    (record r { mtorr_route_errors = errors }, leb threshold errors)

pub note_delivery_failure : Routing → ℕ → Routing × Bool
note_delivery_failure r threshold =
    let failures = saturating_add u8_max r.mtorr_delivery_failures 1 in
    (record r { mtorr_delivery_failures = failures }, leb threshold failures)

pub reset_mtorr_triggers : Routing → Routing
reset_mtorr_triggers r = record r { mtorr_route_errors = 0; mtorr_delivery_failures = 0 }

unfoldable pub route_status : Routing → Nwk → Option Status
route_status r destination = Option.map (λ e. e.status) (FlatMap.get r.route_table destination)

-- `err`: the assertion on the next hop panics.
unfoldable pub next_hop_of : Routing → Nwk → Result (Option Nwk) (Unit {0})
next_hop_of r destination = elim (FlatMap.get r.route_table destination) [
  | none ↦ ok none
  | some e ↦
      if is_active e.status
      then (if e.next_hop_address == unknown_next_hop then err tt else ok (some e.next_hop_address))
      else ok none
]

abbrev pub with_status : Status → TableEntry → TableEntry
with_status status e = record e { status = status }

unfoldable pub mark_discovery_failed : Routing → Nwk → Routing
mark_discovery_failed r destination = record r {
  route_table = FlatMap.modify r.route_table destination (with_status Status.discovery_failed);
}

abbrev pub used : TableEntry → TableEntry
used e = record e {
  recent_activity = saturating_add u8_max e.recent_activity 1;
  total_usage_count = saturating_add u32_max e.total_usage_count 1;
}

unfoldable pub record_usage : Routing → Nwk → Routing
record_usage r destination = record r {
  route_table = FlatMap.modify r.route_table destination used;
}

abbrev pub decayed : TableEntry → TableEntry
decayed e = record e {
  recent_activity =
      if is_active e.status then saturating_sub e.recent_activity 1 else e.recent_activity;
}

unfoldable pub decay_activity : Routing → Routing
decay_activity r = record r { route_table = FlatMap.update_values decayed r.route_table }

abbrev pub invalidated : Nwk → TableEntry → TableEntry
invalidated hop e = record e {
  status = if is_active e.status && (e.next_hop_address == hop) then Status.inactive else e.status;
}

unfoldable pub invalidate_via : Routing → Nwk → Routing
invalidate_via r hop = record r {
  route_table = FlatMap.update_values (invalidated hop) r.route_table;
}

unfoldable pub remove_route : Routing → Nwk → Routing × Bool
remove_route r destination =
    let (table, old) = FlatMap.remove r.route_table destination in
    (record r { route_table = table }, is_some old)

unfoldable pub restore_route : Routing → Nwk → Nwk → ℕ → Routing
restore_route r destination hop cost = record r {
  route_table =
      (FlatMap.insert r.route_table destination
        (record (new_entry destination Status.active hop) { path_cost = cost })).0;
}

abbrev pub RecordTable : Type 0
RecordTable = FlatMap Nwk (List Nwk)

-- The loop of `store_route_record`: each relay is reached through those behind it.
unfoldable pub store_suffixes : RecordTable → List Nwk → RecordTable
store_suffixes table [] = table
store_suffixes table (relay ∷ rest) = store_suffixes ((FlatMap.insert table relay rest).0) rest

-- `==` on relay lists.
pub same_relays : List Nwk → List Nwk → Bool
same_relays [] [] = true
same_relays (x ∷ xs) (y ∷ ys) = (x == y) && same_relays xs ys
same_relays _ _ = false

pub holds_relays : Option (List Nwk) → List Nwk → Bool
holds_relays none relays = false
holds_relays (some old) relays = same_relays old relays

unfoldable pub store_route_record : Routing → Nwk → List Nwk → Routing × Bool
unfolding holds_relays
store_route_record r source relays =
    let table = store_suffixes r.route_record_table relays in
    (
      record r { route_record_table = (FlatMap.insert table source relays).0 },
      not (holds_relays (FlatMap.get table source) relays),
    )

unfoldable pub remove_route_record : Routing → Nwk → Routing × Bool
remove_route_record r destination =
    let (table, old) = FlatMap.remove r.route_record_table destination in
    (record r { route_record_table = table }, is_some old)

abbrev pub record_noted : TableEntry → TableEntry
record_noted e = record e {
  route_record_required = if e.no_route_cache then e.route_record_required else false;
}

unfoldable pub note_source_routed_frame : Routing → Nwk → Routing
note_source_routed_frame r concentrator = record r {
  route_table = FlatMap.modify r.route_table concentrator record_noted;
}

-- `.map(Route::NextHop)` over a lookup that may panic.
abbrev pub as_route : Result (Option Nwk) (Unit {0}) → Result (Option Route) (Unit {0})
as_route (ok o) = ok (Option.map Route.next_hop o)
as_route (err e) = err e

-- The record decides, unless it is too long.
abbrev pub route_by :
    Nwk
    → Option (List Nwk)
    → ℕ
    → Result (Option Route) (Unit {0})
    → Result (Option Route) (Unit {0})
route_by destination none longest table = table
route_by destination (some []) longest table = ok (some (Route.next_hop destination))
route_by destination (some (x ∷ xs)) longest table =
    if ltb (length (x ∷ xs)) longest then ok (some (Route.source_routed (x ∷ xs))) else table

unfoldable pub route_to : Routing → Nwk → ℕ → Result (Option Route) (Unit {0})
route_to r destination max_source_route =
    route_by destination (FlatMap.get r.route_record_table destination) max_source_route
      (as_route (next_hop_of r destination))

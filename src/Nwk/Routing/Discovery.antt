-- ===== src/Nwk/Routing/Discovery.antt =====
-- crates/ziggurat-zigbee/src/nwk/routing.rs: route discovery, from the request to the reply.
pub mod Expiry
pub mod Invariant
pub mod Keep
pub mod Steps
pub mod RequestSteps
pub mod ReplySteps
pub mod History
pub mod Collision
pub mod PathCost
pub mod Cost
use ziggurat.Base.{
  ℕ, zero, suc, ◌+◌, ◌%◌, ◌≡◌, Bool, true, false, not, Option, none, some, List, [], ◌∷◌,
  if◌then◌else◌, ◌==◌, ltb, leb, any, find, u8_max, filterb, map, ◌&&◌, is_some,
}
use ziggurat.Types.{Nwk}
use ziggurat.Base.Order.{nat_ord, pair_ord}
use ziggurat.FlatMap
use ziggurat.FlatMap.{FlatMap}
use ziggurat.Time.{later}
use ziggurat.Nwk.Routing.{
  Routing, TableEntry, DiscoveryEntry, Status, RouteUpdate, is_active, is_underway, new_entry,
  unknown_next_hop, broadcast_all_routers_and_coordinator, consider_route, with_status, routed,
  points_elsewhere,
}
use mathlib.Core.Option

abbrev pub DiscoveryTable : Type 0
DiscoveryTable = FlatMap (Nwk × ℕ) DiscoveryEntry

-- Some discovery in the table is toward the destination.
abbrev pub is_sought : DiscoveryTable → Nwk → Bool
is_sought table destination = any (λ d. d.destination_address == destination) (FlatMap.values table)

abbrev pub is_stuck : FlatMap Nwk TableEntry → Nwk → Bool
is_stuck routes destination = elim (FlatMap.get routes destination) [
  | none ↦ false
  | some e ↦ is_underway e.status
]

-- The body of the loop over the destinations whose discovery expired, and the loop.
unfoldable pub drop_one : DiscoveryTable → FlatMap Nwk TableEntry → Nwk → FlatMap Nwk TableEntry
drop_one live routes destination =
    if is_sought live destination
    then routes
    else (if is_stuck routes destination then (FlatMap.remove routes destination).0 else routes)

unfoldable pub drop_stuck :
    DiscoveryTable → FlatMap Nwk TableEntry → List Nwk → FlatMap Nwk TableEntry
drop_stuck live routes [] = routes
drop_stuck live routes (destination ∷ rest) =
    drop_stuck live (drop_one live routes destination) rest

abbrev pub is_live : ℕ → DiscoveryEntry → Bool
is_live now d = ltb now d.expiration_time

-- `expired_destinations`, in the order of the table.
unfoldable pub expired_destinations : DiscoveryTable → ℕ → List Nwk
expired_destinations table now =
    map (λ d. d.destination_address) (filterb (λ d. not (is_live now d)) (FlatMap.values table))

unfoldable pub expire_discoveries : Routing → ℕ → Routing
expire_discoveries r now =
    let live = FlatMap.retain (λ _ d. (d, is_live now d)) r.discovery_table in
    record r {
      discovery_table = live;
      route_table = drop_stuck live r.route_table (expired_destinations r.discovery_table now);
    }

-- `wrapping_add(1)` on the `u8` identifier.
abbrev pub next_request_id : Routing → ℕ
next_request_id r = (r.request_sequence_number + 1) % 256

-- What a discovery of our own starts as.
abbrev pub own_discovery : Nwk → ℕ → Nwk → ℕ → DiscoveryEntry
own_discovery own_address request_id destination expiration_time = record {
  route_request_id = request_id;
  source_address = own_address;
  sender_address = unknown_next_hop;
  forward_cost = 0;
  residual_cost = u8_max;
  expiration_time = expiration_time;
  destination_address = destination;
}

-- The route entry enters `DiscoveryUnderway`, made if it is missing.
abbrev pub seek : FlatMap Nwk TableEntry → Nwk → FlatMap Nwk TableEntry
seek routes destination =
    FlatMap.modify
      ((FlatMap.or_insert routes destination
        (new_entry destination Status.inactive unknown_next_hop)).0)
      destination (with_status Status.discovery_underway)

-- Also the identifier for the route request.
unfoldable pub begin_discovery : Routing → Nwk → Nwk → ℕ → ℕ → Routing × ℕ
begin_discovery r own_address destination now route_discovery_time =
    let s = expire_discoveries r now in
    let request_id = next_request_id s in
    (
      record s {
        route_table = seek s.route_table destination;
        request_sequence_number = request_id;
        discovery_table =
            (FlatMap.or_insert s.discovery_table (own_address, request_id)
              (own_discovery own_address request_id destination
                (later now route_discovery_time))).0;
      },
      request_id,
    )

unfoldable pub begin_many_to_one_advertisement : Routing → Nwk → ℕ → ℕ → Routing × ℕ
begin_many_to_one_advertisement r own_address now route_discovery_time =
    let request_id = next_request_id r in
    let s = expire_discoveries (record r { request_sequence_number = request_id }) now in
    (
      record s {
        discovery_table =
            (FlatMap.insert s.discovery_table (own_address, request_id)
              (own_discovery own_address request_id broadcast_all_routers_and_coordinator
                (later now route_discovery_time))).0;
      },
      request_id,
    )

unfoldable pub discovery_deadline : Routing → Nwk → ℕ → Option ℕ
discovery_deadline r destination now =
    Option.map (λ d. d.expiration_time)
      (find (λ d. is_live now d && (d.destination_address == destination))
        (FlatMap.values r.discovery_table))

pub data ManyToOne : Type 0 where
  not_many_to_one sender_supports_route_record_table : ManyToOne
  sender_doesnt_support_route_record_table reserved : ManyToOne

-- A many-to-one request marks its originator as a concentrator.
abbrev pub concentrator : ManyToOne → TableEntry → TableEntry
concentrator ManyToOne.not_many_to_one e = e
concentrator ManyToOne.sender_doesnt_support_route_record_table e = record e {
  many_to_one = true;
  route_record_required = true;
  no_route_cache = true;
}
concentrator _ e = record e {
  many_to_one = true;
  route_record_required = true;
  no_route_cache = false;
}

-- A route request, as the driver hands it over.
pub record RouteRequest : Type 0 where
  pub originator : Nwk
  pub request_id : ℕ
  pub destination : Nwk
  pub sender : Nwk
  pub updated_path_cost : ℕ
  pub many_to_one : ManyToOne

pub record RouteRequestOutcome : Type 0 where
  pub accepted : Bool
  pub update : Option RouteUpdate

abbrev pub when : Bool → RouteUpdate → Option RouteUpdate
when true u = some u
when false u = none

-- The reverse route to an originator: considered, in an entry that is made if it is missing.
abbrev pub reverse_entry : FlatMap Nwk TableEntry → Nwk → TableEntry
reverse_entry routes originator =
    (FlatMap.or_insert routes originator (new_entry originator Status.inactive unknown_next_hop)).1

abbrev pub set_entry : FlatMap Nwk TableEntry → Nwk → TableEntry → FlatMap Nwk TableEntry
set_entry routes key e = (FlatMap.insert routes key e).0

-- The part behind the discovery table: the route back to the originator.
unfoldable pub reverse_route : Routing → RouteRequest → Routing × RouteRequestOutcome
reverse_route s q =
    let (entry, changed) =
      consider_route (reverse_entry s.route_table q.originator) q.sender q.updated_path_cost in
    (
      record s {
        route_table = set_entry s.route_table q.originator (concentrator q.many_to_one entry);
      },
      record {
        accepted = true;
        update = when changed (record {
          destination = q.originator;
          next_hop = q.sender;
          path_cost = q.updated_path_cost;
        });
      },
    )

abbrev pub better_path : RouteRequest → DiscoveryEntry → DiscoveryEntry
better_path q d = record d { forward_cost = q.updated_path_cost; sender_address = q.sender }

abbrev pub heard_discovery : RouteRequest → ℕ → DiscoveryEntry
heard_discovery q expiration_time = record {
  route_request_id = q.request_id;
  source_address = q.originator;
  sender_address = q.sender;
  forward_cost = q.updated_path_cost;
  residual_cost = u8_max;
  expiration_time = expiration_time;
  destination_address = q.destination;
}

unfoldable pub accept_route_request : Routing → RouteRequest → ℕ → ℕ → Routing × RouteRequestOutcome
accept_route_request r q now route_discovery_time =
    let s = expire_discoveries r now in
    let key : Nwk × ℕ = (q.originator, q.request_id) in
    elim (FlatMap.get s.discovery_table key) [
      | some d ↦
          if ltb d.forward_cost q.updated_path_cost
          then (s, record { accepted = false; update = none })
          else reverse_route
              (record s { discovery_table = FlatMap.modify s.discovery_table key (better_path q) })
              q
      | none ↦
          reverse_route
            (record s {
              discovery_table =
                  (FlatMap.insert s.discovery_table key
                    (heard_discovery q (later now route_discovery_time))).0;
            })
            q
    ]

abbrev pub underway_unless_active : TableEntry → TableEntry
underway_unless_active e = record e {
  status = if is_active e.status then e.status else Status.discovery_underway;
}

unfoldable pub note_relayed_discovery : Routing → Nwk → Routing
note_relayed_discovery r destination = record r {
  route_table =
      (FlatMap.or_insert (FlatMap.modify r.route_table destination underway_unless_active)
        destination (new_entry destination Status.discovery_underway unknown_next_hop)).0;
}

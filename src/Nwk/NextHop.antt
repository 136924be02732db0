-- ===== src/Nwk/NextHop.antt =====
-- crates/ziggurat-zigbee/src/nwk/next_hop.rs: the MAC next hop of a unicast that we originate.
pub mod Decision
pub mod Unrouted
use ziggurat.Base.{
  ℕ, suc, ◌-◌, ◌+◌, ◌%◌, Bool, true, false, not, Option, none, some, List, [], ◌∷◌, if◌then◌else◌,
  length, last, ◌==◌, is_some, Result, ok, err, ◌&&◌,
}
use ziggurat.Types.{Nwk, Eui64}
use ziggurat.Nwk.Neighbors.{Neighbors, end_device_child_eui64}
use ziggurat.Nwk.Routing.{Routing, Route, route_to, next_hop_of}
use ziggurat.Nwk.Frame.{NwkHeader, NwkFrameControl, NwkRouteDiscovery, NwkSourceRoute}

pub data HostRoute : Type 0 where
  next_hop : Nwk → HostRoute
  source_route : List Nwk → HostRoute

pub data RouteDirective : Type 0 where
  stack_decides : RouteDirective
  hint force : HostRoute → RouteDirective

pub data SendMode : Type 0 where
  direct : SendMode
  route : RouteDirective → SendMode

pub data NextHop : Type 0 where
  resolved : Nwk → NextHop
  need_discovery discard : NextHop

pub record Policy : Type 0 where
  pub is_concentrator : Bool
  pub force_route_discovery : Bool
  pub max_source_route : ℕ

-- A panic, or the rewritten header and the hop.
abbrev pub Outcome : Type 0
Outcome = Result (NwkHeader × NextHop) (Unit {0})

abbrev pub to_hop : NwkHeader → Nwk → Outcome
to_hop header hop = ok (header, NextHop.resolved hop)

-- The header with the relays in it; `relays.len() as u8 - 1` is a difference of `u8`.
abbrev pub with_source_route : NwkHeader → List Nwk → NwkHeader
with_source_route header relays = record header {
  frame_control = record (header.frame_control) {
    source_route = true;
    discover_route = NwkRouteDiscovery.suppress;
  };
  source_route =
      some (record { relay_index = (length relays % 256 + 256 - 1) % 256; relays = relays });
}

-- `relays.last().unwrap()` panics on no relays.
unfoldable pub apply_source_route : NwkHeader → List Nwk → Outcome
apply_source_route header relays = elim (last relays) [
  | none ↦ err tt
  | some hop ↦ to_hop (with_source_route header relays) hop
]

unfoldable pub apply_host_route : NwkHeader → HostRoute → Outcome
apply_host_route header (HostRoute.next_hop hop) = to_hop header hop
apply_host_route header (HostRoute.source_route relays) = apply_source_route header relays

-- No usable route: a hint stands in for discovery, which the frame may forbid.
unfoldable pub without_route : NwkHeader → RouteDirective → Outcome
without_route header (RouteDirective.hint supplied) = apply_host_route header supplied
without_route header _ = elim header.frame_control.discover_route [
  | NwkRouteDiscovery.suppress ↦ ok (header, NextHop.discard)
  | _ ↦ ok (header, NextHop.need_discovery)
]

-- An active ad-hoc route, unless discovery is forced.
unfoldable pub by_table : Routing → NwkHeader → RouteDirective → Policy → Outcome
by_table routing header directive policy =
    if policy.force_route_discovery
    then without_route header directive
    else elim (next_hop_of routing header.destination) [
      | err _ ↦ err tt
      | ok (some hop) ↦ to_hop header hop
      | ok none ↦ without_route header directive
    ]

-- A stored source route wins over the table.
unfoldable pub by_record : Routing → NwkHeader → RouteDirective → Policy → Outcome
by_record routing header directive policy =
    if policy.is_concentrator && not policy.force_route_discovery
    then elim (route_to routing header.destination policy.max_source_route) [
      | err _ ↦ err tt
      | ok (some (Route.next_hop hop)) ↦ to_hop header hop
      | ok (some (Route.source_routed relays)) ↦ apply_source_route header relays
      | ok none ↦ by_table routing header directive policy
    ]
    else by_table routing header directive policy

unfoldable pub by_stack : Routing → Neighbors → NwkHeader → RouteDirective → Policy → Outcome
by_stack routing neighbors header directive policy =
    if is_some (end_device_child_eui64 neighbors header.destination)
    then to_hop header header.destination
    else by_record routing header directive policy

unfoldable pub resolve : Routing → Neighbors → NwkHeader → SendMode → Policy → Outcome
resolve routing neighbors header SendMode.direct policy = to_hop header header.destination
resolve routing neighbors header (SendMode.route (RouteDirective.force supplied)) policy =
    apply_host_route header supplied
resolve routing neighbors header (SendMode.route directive) policy =
    by_stack routing neighbors header directive policy

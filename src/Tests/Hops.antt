-- ===== src/Tests/Hops.antt =====
-- Inputs for the theorems on the next hop of a frame.
use ziggurat.Base.{[], ◌≡◌, refl, inl, true, false, none, [], ◌∷◌, ok}
use ziggurat.Nwk.Frame.{NwkHeader, NwkFrameType, NwkRouteDiscovery}
use ziggurat.FlatMap
use ziggurat.Nwk.Routing
use ziggurat.Nwk.Routing.{default}
use ziggurat.Nwk.NextHop
use ziggurat.Nwk.Neighbors
use ziggurat.Nwk.Neighbors.{Neighbors}
use ziggurat.Nwk.NextHop.{NextHop, HostRoute, RouteDirective, SendMode, Policy, resolve}
use ziggurat.Nwk.NextHop.Unrouted.{Unrouted, resolve-Unrouted}

abbrev header : NwkHeader
header = record {
  frame_control = record {
    frame_type = NwkFrameType.data_frame;
    protocol_version = 2;
    discover_route = NwkRouteDiscovery.enable;
    multicast = false;
    security = true;
    source_route = false;
    destination = false;
    extended_source = false;
    end_device_initiator = false;
    reserved1 = 0;
  };
  destination = 70;
  source = 1;
  radius = 30;
  sequence_number = 4;
  destination_ieee = none;
  source_ieee = none;
  multicast_control = none;
  source_route = none;
}

abbrev policy : Policy
policy = record { is_concentrator = true; force_route_discovery = false; max_source_route = 12 }

abbrev no_neighbors : Neighbors
no_neighbors = record { table = FlatMap.new; pending_lqas = FlatMap.new }

abbrev hinted : SendMode
hinted = SendMode.route (RouteDirective.hint (HostRoute.source_route (20 ∷ 21 ∷ [])))

waits :
    resolve default no_neighbors header (SendMode.route RouteDirective.stack_decides) policy
    ≡ ok (header, NextHop.need_discovery)
unfolding Neighbors.end_device_child_eui64 FlatMap.values resolve NextHop.by_stack NextHop.by_record
    NextHop.by_table NextHop.without_route Routing.route_to Routing.next_hop_of default FlatMap.get
    FlatMap.index_of FlatMap.search FlatMap.new
waits = refl

resolve-Unrouted_example : Unrouted default no_neighbors header policy NextHop.need_discovery
resolve-Unrouted_example =
    resolve-Unrouted default header policy (inl refl) no_neighbors
      (SendMode.route RouteDirective.stack_decides) waits

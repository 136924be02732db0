-- ===== src/Nwk/NextHop/Unrouted.antt =====
-- Where a frame finds no hop: held for a discovery, or discarded.
use ziggurat.Base.{
  ◌≡◌, ◌↔◌, refl, sym, ◌∙◌, true, not, Option, none, some, List, last, Result, ok, err, ◌&&◌, arith,
  inl, inr, ◌⊎◌, Bool-cases, Option-cases,
}
use ziggurat.Base.Order.{nat_ord}
use ziggurat.Types.{Nwk}
use ziggurat.Nwk.Neighbors.{Neighbors, end_device_child_eui64}
use ziggurat.Nwk.Routing.{Routing, Route, route_to, next_hop_of}
use ziggurat.Nwk.Frame.{NwkHeader, NwkRouteDiscovery}
use ziggurat.Nwk.NextHop.{
  HostRoute, RouteDirective, SendMode, NextHop, Policy, Outcome, to_hop, with_source_route,
  apply_source_route, apply_host_route, without_route, by_table, by_record, by_stack, resolve,
}

-- The frame is sent to a hop, or the stack panics.
data Served : Outcome → Type 0 where
  panic : Served (err tt)
  sent : (h : NwkHeader) (hop : Nwk) → Served (ok (h, NextHop.resolved hop))

-- No route served the frame: the host offers none, the destination is no child of ours, and the
-- table has no route or may not be used. The frame's flag says whether it waits for a discovery.
pub record Unrouted (routing : Routing) (neighbors : Neighbors) (header : NwkHeader)
    (policy : Policy) (n : NextHop) : Type 0 where
  pub no_child : end_device_child_eui64 neighbors header.destination ≡ none
  pub no_route :
      (policy.force_route_discovery ≡ true) ⊎ (next_hop_of routing header.destination ≡ ok none)
  pub flagged :
      (n ≡ NextHop.discard) ↔ (header.frame_control.discover_route ≡ NwkRouteDiscovery.suppress)

apply_source_route-Served :
    (header : NwkHeader) (relays : List Nwk) → Served (apply_source_route header relays)
unfolding apply_source_route
apply_source_route-Served header relays = by_last (last relays)
  where
    by_last :
        (o : Option Nwk)
        → Served
            (elim o [ none ↦ err tt | some hop ↦ to_hop (with_source_route header relays) hop ])
    by_last none = panic
    by_last (some hop) = sent (with_source_route header relays) hop

apply_host_route-Served :
    (header : NwkHeader) (supplied : HostRoute) → Served (apply_host_route header supplied)
unfolding apply_host_route
apply_host_route-Served header (HostRoute.next_hop hop) = sent header hop
apply_host_route-Served header (HostRoute.source_route relays) =
    apply_source_route-Served header relays

abbrev Waiting : NextHop → Type 0
Waiting n = (n ≡ NextHop.need_discovery) ⊎ (n ≡ NextHop.discard)

sent_on :
    {h : NwkHeader} {n : NextHop} {o : Outcome} {P : Type 0}
    → Served o
    → o ≡ ok (h, n)
    → Waiting n
    → P
sent_on panic e w = ground (arith, e)
sent_on (sent h hop) e w = ground (arith, e, w)

abbrev Flagged : NwkHeader → NextHop → Type 0
Flagged header n =
    (n ≡ NextHop.discard) ↔ (header.frame_control.discover_route ≡ NwkRouteDiscovery.suppress)

abbrev flag_outcome : NwkRouteDiscovery → NwkHeader → Outcome
flag_outcome flag header = elim flag [
  | NwkRouteDiscovery.suppress ↦ ok (header, NextHop.discard)
  | _ ↦ ok (header, NextHop.need_discovery)
]

undecided_flag :
    (flag : NwkRouteDiscovery) (header : NwkHeader) {h : NwkHeader} {n : NextHop}
    → flag_outcome flag header ≡ ok (h, n)
    → (n ≡ NextHop.discard) ↔ (flag ≡ NwkRouteDiscovery.suppress)
undecided_flag NwkRouteDiscovery.suppress header e = (λ _. refl, λ _. ground (arith, e))
undecided_flag NwkRouteDiscovery.enable header e =
    (λ d. ground (arith, e, d), λ d. ground (arith, d))
undecided_flag NwkRouteDiscovery.with_multicast header e =
    (λ d. ground (arith, e, d), λ d. ground (arith, d))

abbrev NoRoute : Routing → NwkHeader → Policy → NextHop → Type 0
NoRoute routing header policy n =
    ((policy.force_route_discovery ≡ true) ⊎ (next_hop_of routing header.destination ≡ ok none))
    × Flagged header n

module _ (routing : Routing) (header : NwkHeader) (policy : Policy) {h : NwkHeader} {n : NextHop}
    (w : Waiting n) where
  without_route_flag :
      (directive : RouteDirective) → without_route header directive ≡ ok (h, n) → Flagged header n
  unfolding without_route
  without_route_flag (RouteDirective.hint supplied) e =
      sent_on (apply_host_route-Served header supplied) e w
  without_route_flag RouteDirective.stack_decides e =
      undecided_flag header.frame_control.discover_route header e
  without_route_flag (RouteDirective.force supplied) e =
      undecided_flag header.frame_control.discover_route header e

  by_table_unrouted :
      (directive : RouteDirective)
      → by_table routing header directive policy ≡ ok (h, n)
      → NoRoute routing header policy n
  unfolding by_table
  by_table_unrouted directive e = elim (Bool-cases policy.force_route_discovery) [
    | inl forced ↦ (inl forced, without_route_flag directive (sym (rw (forced, by_table) refl) ∙ e))
    | inr free ↦
        found (next_hop_of routing header.destination) refl (sym (rw (free, by_table) refl) ∙ e)
  ]
    where
      found :
          (o : Result (Option Nwk) (Unit {0}))
          → next_hop_of routing header.destination ≡ o
          → elim o [
            | err _ ↦ err tt
            | ok (some hop) ↦ to_hop header hop
            | ok none ↦ without_route header directive
          ]
            ≡ ok (h, n)
          → NoRoute routing header policy n
      found (ok none) q r = (inr q, without_route_flag directive r)
      found (ok (some hop)) q r = sent_on (sent header hop) r w
      found (err tt) q r = sent_on panic r w

  by_record_unrouted :
      (directive : RouteDirective)
      → by_record routing header directive policy ≡ ok (h, n)
      → NoRoute routing header policy n
  unfolding by_record
  by_record_unrouted directive e =
      elim (Bool-cases (policy.is_concentrator && not policy.force_route_discovery)) [
        | inl stored ↦
            found (route_to routing header.destination policy.max_source_route)
              (sym (rw (stored, by_record) refl) ∙ e)
        | inr table ↦ by_table_unrouted directive (sym (rw (table, by_record) refl) ∙ e)
      ]
    where
      found :
          (o : Result (Option Route) (Unit {0}))
          → elim o [
            | err _ ↦ err tt
            | ok (some (Route.next_hop hop)) ↦ to_hop header hop
            | ok (some (Route.source_routed relays)) ↦ apply_source_route header relays
            | ok none ↦ by_table routing header directive policy
          ]
            ≡ ok (h, n)
          → NoRoute routing header policy n
      found (ok none) r = by_table_unrouted directive r
      found (ok (some (Route.next_hop hop))) r = sent_on (sent header hop) r w
      found (ok (some (Route.source_routed relays))) r =
          sent_on (apply_source_route-Served header relays) r w
      found (err tt) r = sent_on panic r w

  by_stack-Unrouted :
      (neighbors : Neighbors) (directive : RouteDirective)
      → by_stack routing neighbors header directive policy ≡ ok (h, n)
      → Unrouted routing neighbors header policy n
  unfolding by_stack
  by_stack-Unrouted neighbors directive e =
      elim (Option-cases (end_device_child_eui64 neighbors header.destination)) [
        | inl none_here ↦
            let (route, flag) =
              by_record_unrouted directive (sym (rw (none_here, by_stack) refl) ∙ e) in
            record { no_child = none_here; no_route = route; flagged = flag }
        | inr (_, ours) ↦
            sent_on (sent header header.destination) (sym (rw (ours, by_stack) refl) ∙ e) w
      ]

  -- Where resolving holds a frame for a discovery or discards it, the destination is no end device
  -- child, the table has no route to it or discovery is forced, and the frame is discarded exactly
  -- if its header suppresses discovery.
  pub resolve-Unrouted :
      (neighbors : Neighbors) (mode : SendMode)
      → resolve routing neighbors header mode policy ≡ ok (h, n)
      → Unrouted routing neighbors header policy n
  unfolding resolve
  resolve-Unrouted neighbors SendMode.direct e = sent_on (sent header header.destination) e w
  resolve-Unrouted neighbors (SendMode.route (RouteDirective.force supplied)) e =
      sent_on (apply_host_route-Served header supplied) e w
  resolve-Unrouted neighbors (SendMode.route RouteDirective.stack_decides) e =
      by_stack-Unrouted neighbors RouteDirective.stack_decides e
  resolve-Unrouted neighbors (SendMode.route (RouteDirective.hint supplied)) e =
      by_stack-Unrouted neighbors (RouteDirective.hint supplied) e

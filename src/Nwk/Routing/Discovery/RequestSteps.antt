-- ===== src/Nwk/Routing/Discovery/RequestSteps.antt =====
-- The routing invariant and the route requests that nwk/routing.rs receives and relays.
use ziggurat.Base.{ℕ, ◌≡◌, ◌≢◌, refl, true, none, ltb, arith, inl, inr, Option-cases, Bool-cases}
use ziggurat.Types.{Nwk}
use ziggurat.Base.Order.{nat_ord, pair_ord}
use ziggurat.FlatMap
use ziggurat.FlatMap.{FlatMap}
use ziggurat.FlatMap.StaysSorted.{insert-IsSorted, modify-IsSorted, or_insert-IsSorted}
use ziggurat.FlatMap.Everywhere.{Everywhere-insert, Everywhere-modify, Everywhere-or_insert}
use ziggurat.Time.{later}
use ziggurat.Nwk.Routing.{Routing, Status, unknown_next_hop, new_entry, consider_route}
use ziggurat.Nwk.Routing.Discovery.{
  is_sought, expire_discoveries, accept_route_request, note_relayed_discovery, RouteRequest,
  reverse_route, reverse_entry, concentrator, better_path, heard_discovery, underway_unless_active,
}
use ziggurat.Nwk.Routing.Discovery.Invariant.{IsValid, GoodRoute, GoodDiscovery}
use ziggurat.Nwk.Routing.Discovery.Keep.{
  routes_keep, insert_keep, modify_keep, consider_route-Good, concentrator-Good, reverse_entry-Good,
}
use ziggurat.Nwk.Routing.Discovery.Steps.{expire_discoveries-IsValid}

reverse_route-IsValid :
    (own : Nwk) (s : Routing) (q : RouteRequest)
    → q.sender ≢ unknown_next_hop
    → IsValid own s
    → IsValid own (reverse_route s q).0
unfolding reverse_route
reverse_route-IsValid own s q known v =
    let f =
      (consider_route (reverse_entry s.route_table q.originator) q.sender q.updated_path_cost).0 in
    let e = concentrator q.many_to_one f in
    record {
      sorted_routes = insert-IsSorted s.route_table q.originator e v.sorted_routes;
      sorted_discoveries = v.sorted_discoveries;
      routes =
          Everywhere-insert (GoodRoute s.discovery_table) s.route_table q.originator e v.routes (
            concentrator-Good s.discovery_table q.originator q.many_to_one f (
              consider_route-Good s.discovery_table q.originator
                (reverse_entry s.route_table q.originator) q.sender q.updated_path_cost known
                (reverse_entry-Good s.discovery_table s.route_table q.originator v.routes)));
      discoveries = v.discoveries;
    }

-- The first copy of a request is recorded.
first_copy-IsValid :
    (own : Nwk) (s : Routing) (q : RouteRequest) (expires : ℕ)
    → q.sender ≢ unknown_next_hop
    → IsValid own s
    → FlatMap.get s.discovery_table (q.originator, q.request_id) ≡ none
    → let key : Nwk × ℕ = (q.originator, q.request_id) in
      IsValid own (record s {
        discovery_table = (FlatMap.insert s.discovery_table key (heard_discovery q expires)).0;
      })
first_copy-IsValid own s q expires known v e =
    let key : Nwk × ℕ = (q.originator, q.request_id) in
    let d = heard_discovery q expires in
    record {
      sorted_routes = v.sorted_routes;
      sorted_discoveries = insert-IsSorted s.discovery_table key d v.sorted_discoveries;
      routes =
          routes_keep s.discovery_table (FlatMap.insert s.discovery_table key d).0 s.route_table
            (insert_keep s.discovery_table key d v.sorted_discoveries e) v.routes;
      discoveries =
          Everywhere-insert (GoodDiscovery own) s.discovery_table key d v.discoveries (λ _. known);
    }

-- A later copy moves its discovery to the better path.
later_copy-IsValid :
    (own : Nwk) (s : Routing) (q : RouteRequest)
    → q.sender ≢ unknown_next_hop
    → IsValid own s
    → let key : Nwk × ℕ = (q.originator, q.request_id) in
      IsValid own
        (record s { discovery_table = FlatMap.modify s.discovery_table key (better_path q) })
later_copy-IsValid own s q known v =
    let key : Nwk × ℕ = (q.originator, q.request_id) in
    let discoveries = FlatMap.modify s.discovery_table key (better_path q) in
    record {
      sorted_routes = v.sorted_routes;
      sorted_discoveries =
          modify-IsSorted s.discovery_table key (better_path q) v.sorted_discoveries;
      routes =
          routes_keep s.discovery_table discoveries s.route_table
            (modify_keep s.discovery_table key (better_path q) v.sorted_discoveries (λ _. refl))
            v.routes;
      discoveries =
          Everywhere-modify (GoodDiscovery own) s.discovery_table key (better_path q) v.discoveries
            (λ _ _ _. known);
    }

pub accept_route_request-IsValid :
    (own : Nwk) (r : Routing) (q : RouteRequest) (now wait : ℕ)
    → q.sender ≢ unknown_next_hop
    → IsValid own r
    → IsValid own (accept_route_request r q now wait).0
unfolding accept_route_request
accept_route_request-IsValid own r q now wait known v =
    let w = expire_discoveries-IsValid own r now v in
    let s = expire_discoveries r now in
    let key : Nwk × ℕ = (q.originator, q.request_id) in
    elim (Option-cases (FlatMap.get s.discovery_table key)) [
      | inl e ↦
          let d = heard_discovery q (later now wait) in
          rw (e, accept_route_request)
            (reverse_route-IsValid own
              (record s { discovery_table = (FlatMap.insert s.discovery_table key d).0 }) q known
              (first_copy-IsValid own s q (later now wait) known w e))
      | inr (d, e) ↦ elim (Bool-cases (ltb d.forward_cost q.updated_path_cost)) [
        | inl worse ↦ rw (e, accept_route_request, worse) w
        | inr better ↦
            rw (e, accept_route_request, better)
              (reverse_route-IsValid own
                (record s {
                  discovery_table = FlatMap.modify s.discovery_table key (better_path q);
                })
                q known (later_copy-IsValid own s q known w))
      ]
    ]

-- A relayed request leaves a route underway: the destination must be sought already, as it is once
-- the request was accepted.
pub note_relayed_discovery-IsValid :
    (own : Nwk) (r : Routing) (destination : Nwk)
    → is_sought r.discovery_table destination ≡ true
    → IsValid own r
    → IsValid own (note_relayed_discovery r destination)
unfolding note_relayed_discovery
note_relayed_discovery-IsValid own r destination sought v =
    let routes = FlatMap.modify r.route_table destination underway_unless_active in
    let entry = new_entry destination Status.discovery_underway unknown_next_hop in
    record {
      sorted_routes =
          or_insert-IsSorted routes destination entry
            (modify-IsSorted r.route_table destination underway_unless_active v.sorted_routes);
      sorted_discoveries = v.sorted_discoveries;
      routes =
          Everywhere-or_insert (GoodRoute r.discovery_table) routes destination entry
            (Everywhere-modify (GoodRoute r.discovery_table) r.route_table destination
              underway_unless_active v.routes
              (λ e g. (λ a. ground (arith, (v.routes destination e g).0), λ u. sought)))
            (λ a. ground arith, λ u. sought);
      discoveries = v.discoveries;
    }

-- ===== src/Nwk/Routing/Discovery/ReplySteps.antt =====
-- Route replies keep the routing invariant.
use ziggurat.Base.{ℕ, ◌≢◌, refl, leb, ◌==◌, ◌&&◌, arith, inl, inr, Option-cases, Bool-cases}
use ziggurat.Types.{Nwk}
use ziggurat.Base.Order.{nat_ord, pair_ord}
use ziggurat.FlatMap
use ziggurat.FlatMap.{FlatMap}
use ziggurat.FlatMap.StaysSorted.{insert-IsSorted, modify-IsSorted}
use ziggurat.FlatMap.Everywhere.{Everywhere-insert, Everywhere-modify}
use ziggurat.Nwk.Routing.{
  Routing, TableEntry, DiscoveryEntry, is_active, unknown_next_hop, consider_route, routed,
}
use ziggurat.Nwk.Routing.Discovery.{reverse_entry}
use ziggurat.Nwk.Routing.Replies.{
  accept_route_reply, RouteReply, establish, relay_reply, routed_reply,
}
use ziggurat.Nwk.Routing.Discovery.Invariant.{IsValid, GoodRoute, GoodDiscovery}
use ziggurat.Nwk.Routing.Discovery.Keep.{
  routes_keep, modify_keep, consider_route-Good, reverse_entry-Good,
}

residual : ℕ → DiscoveryEntry → DiscoveryEntry
residual cost d = record d { residual_cost = cost }

routed_reply-IsValid :
    (own : Nwk) (r : Routing) (q : RouteReply) (e : TableEntry)
    → q.sender ≢ unknown_next_hop
    → IsValid own r
    → IsValid own (routed_reply r q e)
unfolding residual
routed_reply-IsValid own r q e known v =
    let key : Nwk × ℕ = (q.originator, q.request_id) in
    let t = FlatMap.modify r.discovery_table key (residual q.updated_path_cost) in
    record {
      sorted_routes =
          insert-IsSorted r.route_table q.responder (routed e q.sender q.updated_path_cost)
            v.sorted_routes;
      sorted_discoveries =
          modify-IsSorted r.discovery_table key (residual q.updated_path_cost) v.sorted_discoveries;
      routes =
          Everywhere-insert (GoodRoute t) r.route_table q.responder
            (routed e q.sender q.updated_path_cost)
            (routes_keep r.discovery_table t r.route_table
              (modify_keep r.discovery_table key (residual q.updated_path_cost) v.sorted_discoveries
                (λ _. refl))
              v.routes)
            (λ _. known, λ u. ground arith);
      discoveries =
          Everywhere-modify (GoodDiscovery own) r.discovery_table key (residual q.updated_path_cost)
            v.discoveries (λ d g. v.discoveries key d g);
    }

establish-IsValid :
    (own : Nwk) (r : Routing) (q : RouteReply) (d : DiscoveryEntry) (e : TableEntry)
    → q.sender ≢ unknown_next_hop
    → IsValid own r
    → IsValid own (establish r q d e).0
unfolding establish
establish-IsValid own r q d e known v =
    elim (Bool-cases (is_active e.status && leb d.residual_cost q.updated_path_cost)) [
      | inl worse ↦ rw worse v
      | inr better ↦ rw better (routed_reply-IsValid own r q e known v)
    ]

relay_reply-IsValid :
    (own : Nwk) (r : Routing) (q : RouteReply) (d : DiscoveryEntry) (e : TableEntry)
    → q.sender ≢ unknown_next_hop
    → d.sender_address ≢ unknown_next_hop
    → IsValid own r
    → IsValid own (relay_reply r q d e).0
unfolding relay_reply
relay_reply-IsValid own r q d e known back v =
    elim (Bool-cases (leb d.residual_cost q.updated_path_cost)) [
      | inl worse ↦ rw worse v
      | inr better ↦
          let s = routed_reply r q e in
          let w = routed_reply-IsValid own r q e known v in
          let f =
            (consider_route (reverse_entry s.route_table q.originator) d.sender_address
              d.forward_cost).0 in
          rw better (record {
            sorted_routes = insert-IsSorted s.route_table q.originator f w.sorted_routes;
            sorted_discoveries = w.sorted_discoveries;
            routes =
                Everywhere-insert (GoodRoute s.discovery_table) s.route_table q.originator f
                  w.routes
                  (consider_route-Good s.discovery_table q.originator
                    (reverse_entry s.route_table q.originator) d.sender_address d.forward_cost back
                    (reverse_entry-Good s.discovery_table s.route_table q.originator w.routes));
            discoveries = w.discoveries;
          })
    ]

pub accept_route_reply-IsValid :
    (own : Nwk) (r : Routing) (q : RouteReply)
    → q.sender ≢ unknown_next_hop
    → IsValid own r
    → IsValid own (accept_route_reply r own q).0
unfolding accept_route_reply
accept_route_reply-IsValid own r q known v =
    elim (Option-cases (FlatMap.get r.discovery_table (q.originator, q.request_id))) [
      | inl e ↦ rw (e, accept_route_reply) v
      | inr (d, g) ↦ elim (Option-cases (FlatMap.get r.route_table q.responder)) [
        | inl e ↦ rw (g, accept_route_reply, e) v
        | inr (e, h) ↦ elim (Bool-cases (q.originator == own)) [
          | inl ours ↦ rw (g, accept_route_reply, h, ours) (establish-IsValid own r q d e known v)
          | inr theirs ↦
              rw (g, accept_route_reply, h, theirs)
                (relay_reply-IsValid own r q d e known
                  (v.discoveries (q.originator, q.request_id) d g (λ s. ground arith)) v)
        ]
      ]
    ]

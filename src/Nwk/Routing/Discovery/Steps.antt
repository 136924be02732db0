-- ===== src/Nwk/Routing/Discovery/Steps.antt =====
-- The routing invariant and the start and the expiry of discoveries in nwk/routing.rs.
use mathlib.Core.Option
use ziggurat.Base.{ℕ, ◌≡◌, refl, none, ◌==◌, arith}
use ziggurat.Types.{Nwk}
use ziggurat.Base.Order.{nat_ord, pair_ord}
use ziggurat.FlatMap
use ziggurat.FlatMap.{FlatMap}
use ziggurat.FlatMap.StaysSorted.{insert-IsSorted, modify-IsSorted, or_insert-IsSorted}
use ziggurat.FlatMap.Laws.{or_insert_missing}
use ziggurat.FlatMap.Entries.{any_of_get}
use ziggurat.FlatMap.Everywhere.{
  Everywhere-insert, Everywhere-modify, Everywhere-or_insert, get-insert_self,
}
use ziggurat.Time.{later}
use ziggurat.Nwk.Routing.{
  Routing, Status, unknown_next_hop, broadcast_all_routers_and_coordinator, new_entry, with_status,
}
use ziggurat.Nwk.Routing.Discovery.{
  expire_discoveries, begin_discovery, begin_many_to_one_advertisement, own_discovery,
  next_request_id,
}
use ziggurat.Nwk.Routing.Discovery.Expiry.{
  live_table, get-live_table, get_of_expire, expire_discoveries-Backed, expire-IsSorted,
}
use ziggurat.Nwk.Routing.Discovery.Invariant.{IsValid, GoodRoute, GoodDiscovery}
use mathlib.Core.Option.{some-injective}
use ziggurat.Nwk.Routing.Discovery.Keep.{routes_keep, insert_keep}

-- The expiry of discoveries keeps the invariant.
pub expire_discoveries-IsValid :
    (own : Nwk) (r : Routing) (now : ℕ) → IsValid own r → IsValid own (expire_discoveries r now)
unfolding Option.bind
expire_discoveries-IsValid own r now v =
    let sorted = expire-IsSorted r now v.sorted_routes v.sorted_discoveries in
    record {
      sorted_routes = sorted.0;
      sorted_discoveries = sorted.1;
      routes = λ k e g. (
        (v.routes k e (get_of_expire r now k e v.sorted_routes g)).0,
        expire_discoveries-Backed r now v.sorted_routes v.sorted_discoveries
            (λ j f h. (v.routes j f h).1) k e g,
      );
      discoveries = λ key d g.
          v.discoveries key d (ground (arith, get-live_table r now key v.sorted_discoveries));
    }

-- A discovery added under a free key, and a route entered as underway toward its destination.
pub begin_discovery-IsValid :
    (own : Nwk) (r : Routing) (destination : Nwk) (now wait : ℕ)
    → IsValid own r
    → FlatMap.get (live_table r now) (own, next_request_id r) ≡ none
    → IsValid own (begin_discovery r own destination now wait).0
unfolding begin_discovery expire_discoveries
begin_discovery-IsValid own r destination now wait v free =
    let w = expire_discoveries-IsValid own r now v in
    let key : Nwk × ℕ = (own, next_request_id r) in
    let d = own_discovery own (next_request_id r) destination (later now wait) in
    let t = live_table r now in
    let routes = (expire_discoveries r now).route_table in
    let entry = new_entry destination Status.inactive unknown_next_hop in
    let sought =
      any_of_get (λ x. x.destination_address == destination) (FlatMap.insert t key d).0 key d
        (get-insert_self t key d) (ground arith) in
    let kept =
      routes_keep t (FlatMap.insert t key d).0 routes
        (insert_keep t key d w.sorted_discoveries free) w.routes in
    rw (or_insert_missing t key d free) (record {
      sorted_routes =
          modify-IsSorted (FlatMap.or_insert routes destination entry).0 destination
            (with_status Status.discovery_underway)
            (or_insert-IsSorted routes destination entry w.sorted_routes);
      sorted_discoveries = insert-IsSorted t key d w.sorted_discoveries;
      routes =
          Everywhere-modify (GoodRoute (FlatMap.insert t key d).0)
            (FlatMap.or_insert routes destination entry).0 destination
            (with_status Status.discovery_underway)
            (Everywhere-or_insert (GoodRoute (FlatMap.insert t key d).0) routes destination entry
              kept (λ a. ground arith, λ u. ground arith))
            (λ e g. (λ a. ground arith, λ u. sought));
      discoveries =
          Everywhere-insert (GoodDiscovery own) t key d w.discoveries
            (λ other. absurd (other refl));
    })

pub begin_many_to_one-IsValid :
    (own : Nwk) (r : Routing) (now wait : ℕ)
    → IsValid own r
    → FlatMap.get (live_table r now) (own, next_request_id r) ≡ none
    → IsValid own (begin_many_to_one_advertisement r own now wait).0
unfolding begin_many_to_one_advertisement expire_discoveries
begin_many_to_one-IsValid own r now wait v free =
    let w = expire_discoveries-IsValid own r now v in
    let key : Nwk × ℕ = (own, next_request_id r) in
    let d =
      own_discovery own (next_request_id r) broadcast_all_routers_and_coordinator
        (later now wait) in
    let t = live_table r now in
    let routes = (expire_discoveries r now).route_table in
    record {
      sorted_routes = w.sorted_routes;
      sorted_discoveries = insert-IsSorted t key d w.sorted_discoveries;
      routes =
          routes_keep t (FlatMap.insert t key d).0 routes
            (insert_keep t key d w.sorted_discoveries free) w.routes;
      discoveries =
          Everywhere-insert (GoodDiscovery own) t key d w.discoveries
            (λ other. absurd (other refl));
    }

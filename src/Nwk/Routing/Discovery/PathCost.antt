-- ===== src/Nwk/Routing/Discovery/PathCost.antt =====
-- A route before and after an operation of nwk/routing.rs: its status, its cost and its next hop.
use ziggurat.Base.{ap, ℕ, ◌≡◌, ◌≤◌, ◌<◌, refl, true, some, arith, ◌⊎◌, inl, inr, Bool-cases}
use ziggurat.Types.{Nwk}
use ziggurat.Base.Order.{nat_ord, pair_ord, key_eq}
use ziggurat.FlatMap
use ziggurat.FlatMap.{FlatMap}
use ziggurat.FlatMap.Laws.{get-insert, or_insert_present}
use ziggurat.FlatMap.Everywhere.{eq_of_key_eq}
use ziggurat.Nwk.Routing.{
  Routing, TableEntry, Status, is_active, consider_route, new_entry, unknown_next_hop,
}
use ziggurat.Nwk.Routing.Discovery.{
  RouteRequest, ManyToOne, reverse_route, reverse_entry, concentrator,
}

-- What a request leaves of an active route: active, no dearer, and re-pointed only if cheaper.
pub record NoWorse (e f : TableEntry) : Type 0 where
  pub stays_active : is_active f.status ≡ true
  pub no_dearer : f.path_cost ≤ e.path_cost
  pub repointed : (f.next_hop_address ≡ e.next_hop_address) ⊎ (f.path_cost < e.path_cost)

pub NoWorse-refl : (e : TableEntry) → is_active e.status ≡ true → NoWorse e e
NoWorse-refl e a = record { stays_active = a; no_dearer = omega arith; repointed = inl refl }

consider_route-NoWorse :
    (e : TableEntry) (hop : Nwk) (cost : ℕ)
    → is_active e.status ≡ true
    → NoWorse e (consider_route e hop cost).0
unfolding consider_route
consider_route-NoWorse e hop cost a = record {
  stays_active = ground arith;
  no_dearer = ground arith;
  repointed = ground arith;
}

concentrator-NoWorse :
    (m : ManyToOne) (e f : TableEntry) → NoWorse e f → NoWorse e (concentrator m f)
concentrator-NoWorse ManyToOne.not_many_to_one e f n = n
concentrator-NoWorse _ e f n = record {
  stays_active = n.stays_active;
  no_dearer = n.no_dearer;
  repointed = n.repointed;
}

pub reverse_route-NoWorse :
    (s : Routing) (q : RouteRequest) (k : Nwk) (e : TableEntry)
    → FlatMap.get s.route_table k ≡ some e
    → is_active e.status ≡ true
    → (f : TableEntry) × (FlatMap.get (reverse_route s q).0.route_table k ≡ some f) × NoWorse e f
unfolding reverse_route
reverse_route-NoWorse s q k e g a =
    let entry = reverse_entry s.route_table q.originator in
    let new = concentrator q.many_to_one (consider_route entry q.sender q.updated_path_cost).0 in
    elim (Bool-cases (key_eq q.originator k)) [
      | inl same ↦
          let here : FlatMap.get s.route_table q.originator ≡ some e =
            rw (eq_of_key_eq q.originator k same) g in
          let old : entry ≡ e =
            ap (λ x. x.1)
              (or_insert_present s.route_table q.originator
                (new_entry q.originator Status.inactive unknown_next_hop) here) in
          (
            new,
            ground (arith, get-insert s.route_table q.originator k new),
            concentrator-NoWorse q.many_to_one e
                (consider_route entry q.sender q.updated_path_cost).0
                (rw old (consider_route-NoWorse e q.sender q.updated_path_cost a)),
          )
      | inr apart ↦
          (e, ground (arith, get-insert s.route_table q.originator k new), NoWorse-refl e a)
    ]

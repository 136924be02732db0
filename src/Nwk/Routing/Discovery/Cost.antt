-- ===== src/Nwk/Routing/Discovery/Cost.antt =====
-- The suitability rule: what a received request does to the costs that are stored.
use mathlib.Core.Option
use ziggurat.Base.{
  ap, ℕ, ◌≡◌, ◌≤◌, ◌<◌, refl, sym, ◌∙◌, true, false, none, some, ltb, arith, ◌↔◌, ◌⊎◌, inl, inr,
  Option-cases, Bool-cases,
}
use ziggurat.Types.{Nwk}
use ziggurat.Base.Order.{nat_ord, pair_ord}
use ziggurat.FlatMap
use ziggurat.FlatMap.{FlatMap}
use ziggurat.FlatMap.Sorted.{IsSorted}
use ziggurat.FlatMap.Laws.{get-modify, or_insert_missing}
use ziggurat.FlatMap.Everywhere.{get-insert_self, key_eq_self}
use mathlib.Core.Option.{some-ne-none}
use ziggurat.Time.{later}
use ziggurat.Nwk.Routing.{Routing, TableEntry, DiscoveryEntry, is_active}
use ziggurat.Nwk.Routing.Discovery.{
  RouteRequest, expire_discoveries, accept_route_request, reverse_route, better_path,
  heard_discovery, begin_discovery, own_discovery, next_request_id,
}
use ziggurat.Nwk.Routing.Discovery.Expiry.{live_table, get-live_table, get-expire_settled}
use ziggurat.Nwk.Routing.Discovery.PathCost.{NoWorse, NoWorse-refl, reverse_route-NoWorse}

abbrev pub request_key : RouteRequest → Nwk × ℕ
request_key q = (q.originator, q.request_id)

-- The state in which an accepted request considers its route back: `s` tracks the path that the
-- request came by, at a cost that is no dearer than the one known before.
pub record Tracks (r : Routing) (q : RouteRequest) (now : ℕ) (s : Routing) : Type 0 where
  pub same_routes : s.route_table ≡ (expire_discoveries r now).route_table
  pub no_dearer :
      (d : DiscoveryEntry)
      → FlatMap.get (live_table r now) (request_key q) ≡ some d
      → q.updated_path_cost ≤ d.forward_cost
  pub tracked :
      (d : DiscoveryEntry) × (FlatMap.get s.discovery_table (request_key q) ≡ some d)
      × (d.forward_cost ≡ q.updated_path_cost)
      × (d.sender_address ≡ q.sender)

-- The two outcomes of a request: rejected, or its route back is considered.
pub request_cases :
    (r : Routing) (q : RouteRequest) (now wait : ℕ)
    → ((d : DiscoveryEntry) × (FlatMap.get (live_table r now) (request_key q) ≡ some d)
        × (d.forward_cost < q.updated_path_cost)
        × (accept_route_request r q now wait
            ≡ (expire_discoveries r now, record { accepted = false; update = none })))
      ⊎ ((s : Routing) × Tracks r q now s × (accept_route_request r q now wait ≡ reverse_route s q))
unfolding accept_route_request
request_cases r q now wait =
    let t = expire_discoveries r now in
    let key = request_key q in
    elim (Option-cases (FlatMap.get t.discovery_table key)) [
      | inl e ↦
          let d = heard_discovery q (later now wait) in
          inr (
            record t { discovery_table = (FlatMap.insert t.discovery_table key d).0 },
            record {
              same_routes = refl;
              no_dearer = λ x g. absurd (some-ne-none x (sym g ∙ e));
              tracked = (d, get-insert_self t.discovery_table key d, refl, refl);
            },
            rw (e, accept_route_request),
          )
      | inr (d, e) ↦ elim (Bool-cases (ltb d.forward_cost q.updated_path_cost)) [
        | inl worse ↦ inl (d, e, ground (arith, worse), rw (e, accept_route_request, worse))
        | inr better ↦ inr (
          record t { discovery_table = FlatMap.modify t.discovery_table key (better_path q) },
          record {
            same_routes = refl;
            no_dearer = λ x g. ground (arith, better, e, g);
            tracked = (
              better_path q d,
              get-modify t.discovery_table key key (better_path q) ∙ rw (key_eq_self key, e) refl,
              refl,
              refl,
            );
          },
          rw (e, accept_route_request, better),
        )
      ]
    ]

-- In a sorted route table, an active route is still active after any route request, at a path cost
-- that is not above the old one, and it has the same next hop or a strictly lower cost.
pub accept_route_request-NoWorse :
    (r : Routing) (q : RouteRequest) (now wait : ℕ) (k : Nwk) (e : TableEntry)
    → IsSorted r.route_table
    → FlatMap.get r.route_table k ≡ some e
    → is_active e.status ≡ true
    → (f : TableEntry) × (FlatMap.get (accept_route_request r q now wait).0.route_table k ≡ some f)
      × NoWorse e f
accept_route_request-NoWorse r q now wait k e s g a =
    let settled = get-expire_settled r now k e s g (ground arith) in
    elim (request_cases r q now wait) [
      | inl (d, _, _, out) ↦ (e, rw out settled, NoWorse-refl e a)
      | inr (t, tracks, out) ↦
          rw out (reverse_route-NoWorse t q k e (rw tracks.same_routes settled) a)
    ]

reverse_route_keeps :
    (s : Routing) (q : RouteRequest)
    → ((reverse_route s q).1.accepted ≡ true)
      × ((reverse_route s q).0.discovery_table ≡ s.discovery_table)
unfolding reverse_route
reverse_route_keeps s q = (refl, refl)

-- A route request is accepted exactly if no live discovery of the same request knows a strictly
-- lower cost; if it is accepted, the discovery of the request tracks its cost and its sender.
pub accept_route_request_decision :
    (r : Routing) (q : RouteRequest) (now wait : ℕ)
    → (((accept_route_request r q now wait).1.accepted ≡ true) ↔ (
        (d : DiscoveryEntry)
        → FlatMap.get (live_table r now) (request_key q) ≡ some d
        → q.updated_path_cost ≤ d.forward_cost))
      × ((accept_route_request r q now wait).1.accepted ≡ true
          → (d : DiscoveryEntry) × (FlatMap.get
                (accept_route_request r q now wait).0.discovery_table
                (request_key q)
              ≡ some d)
            × (d.forward_cost ≡ q.updated_path_cost)
            × (d.sender_address ≡ q.sender))
accept_route_request_decision r q now wait = elim (request_cases r q now wait) [
  | inl (d, g, worse, out) ↦
      rw out ((λ e. absurd (cc), λ h. absurd (omega (arith, h d g))), λ e. absurd (cc))
  | inr (s, tracks, out) ↦
      let (accepted, kept) = reverse_route_keeps s q in
      let (d, g, cost, sender) = tracks.tracked in
      rw out (
        (λ _. tracks.no_dearer, λ _. accepted),
        λ _. (d, ap (λ t. FlatMap.get t (request_key q)) kept ∙ g, cost, sender),
      )
]

begin_discovery_tracks :
    (r : Routing) (own destination : Nwk) (begun wait : ℕ)
    → FlatMap.get (live_table r begun) (own, next_request_id r) ≡ none
    → FlatMap.get
        (begin_discovery r own destination begun wait).0.discovery_table
        (own, (begin_discovery r own destination begun wait).1)
      ≡ some (own_discovery own (next_request_id r) destination (later begun wait))
unfolding begin_discovery expire_discoveries
begin_discovery_tracks r own destination begun wait free =
    let d = own_discovery own (next_request_id r) destination (later begun wait) in
    rw (or_insert_missing (live_table r begun) (own, next_request_id r) d free)
      (get-insert_self (live_table r begun) (own, next_request_id r) d)

-- After a discovery of ours began under a free identifier and left a sorted discovery table, a
-- request with our address and that identifier and a cost above zero is rejected before the
-- discovery expires.
pub own_request_no_echo :
    (r : Routing) (own destination : Nwk) (begun wait : ℕ) (q : RouteRequest) (now again : ℕ)
    → IsSorted (begin_discovery r own destination begun wait).0.discovery_table
    → FlatMap.get (live_table r begun) (own, next_request_id r) ≡ none
    → request_key q ≡ (own, (begin_discovery r own destination begun wait).1)
    → 0 < q.updated_path_cost
    → now < later begun wait
    → (accept_route_request (begin_discovery r own destination begun wait).0 q now again).1.accepted
      ≡ false
unfolding Option.bind
own_request_no_echo r own destination begun wait q now again s free same cost before =
    let t = (begin_discovery r own destination begun wait).0 in
    let d = own_discovery own (next_request_id r) destination (later begun wait) in
    let tracked : FlatMap.get t.discovery_table (request_key q) ≡ some d =
      rw same (begin_discovery_tracks r own destination begun wait free) in
    let live : FlatMap.get (live_table t now) (request_key q) ≡ some d =
      ground (arith, get-live_table t now (request_key q) s, tracked) in
    elim (request_cases t q now again) [
      | inl (_, _, _, out) ↦ rw out
      | inr (_, tracks, _) ↦ absurd (omega (arith, tracks.no_dearer d live))
    ]

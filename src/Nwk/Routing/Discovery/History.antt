-- ===== src/Nwk/Routing/Discovery/History.antt =====
-- Histories of the routing layer: a step for each operation, with what the driver guarantees of it.
use ziggurat.Base.{Option-cases, inl, inr, some, arith, ℕ, ◌≡◌, ◌≢◌, true, none, List, err}
use ziggurat.Types.{Nwk}
use ziggurat.Base.Order.{nat_ord, pair_ord}
use ziggurat.FlatMap
use ziggurat.Nwk.Routing.{
  Status, route_status, Routing, unknown_next_hop, default, mark_discovery_failed, record_usage,
  decay_activity, invalidate_via, remove_route, restore_route, note_source_routed_frame,
  next_hop_of, store_route_record, remove_route_record, note_route_error, note_delivery_failure,
  reset_mtorr_triggers,
}
use ziggurat.Nwk.Routing.Discovery.{
  is_sought, begin_discovery, begin_many_to_one_advertisement, accept_route_request,
  note_relayed_discovery, RouteRequest, next_request_id,
}
use ziggurat.Nwk.Routing.Replies.{accept_route_reply, RouteReply}
use ziggurat.Nwk.Routing.Discovery.Expiry.{live_table}
use ziggurat.Nwk.Routing.Discovery.Invariant
use ziggurat.Nwk.Routing.Discovery.Invariant.{IsValid, default-IsValid, next_hop_of_safe}
use ziggurat.Nwk.Routing.Discovery.Steps
use ziggurat.Nwk.Routing.Discovery.RequestSteps
use ziggurat.Nwk.Routing.Discovery.ReplySteps

-- Hops are addresses of neighbors, never 0xFFFF; a request identifier that is handed out is free; a
-- request is relayed only once it was accepted.
pub data Step (own : Nwk) (r : Routing) : Routing → Type 0 where
  restores :
      (k hop : Nwk) (cost : ℕ) → hop ≢ unknown_next_hop → Step own r (restore_route r k hop cost)
  fails : (k : Nwk) → Step own r (mark_discovery_failed r k)
  uses : (k : Nwk) → Step own r (record_usage r k)
  decays : Step own r (decay_activity r)
  invalidates : (hop : Nwk) → Step own r (invalidate_via r hop)
  removes : (k : Nwk) → Step own r (remove_route r k).0
  relays_source_routed : (k : Nwk) → Step own r (note_source_routed_frame r k)
  stores_record : (k : Nwk) (relays : List Nwk) → Step own r (store_route_record r k relays).0
  removes_record : (k : Nwk) → Step own r (remove_route_record r k).0
  counts_error : (threshold : ℕ) → Step own r (note_route_error r threshold).0
  counts_failure : (threshold : ℕ) → Step own r (note_delivery_failure r threshold).0
  resets : Step own r (reset_mtorr_triggers r)
  begins :
      (k : Nwk) (now wait : ℕ)
      → FlatMap.get (live_table r now) (own, next_request_id r) ≡ none
      → Step own r (begin_discovery r own k now wait).0
  advertises :
      (now wait : ℕ)
      → FlatMap.get (live_table r now) (own, next_request_id r) ≡ none
      → Step own r (begin_many_to_one_advertisement r own now wait).0
  hears_request :
      (q : RouteRequest) (now wait : ℕ)
      → q.sender ≢ unknown_next_hop
      → Step own r (accept_route_request r q now wait).0
  relays_request :
      (k : Nwk) → is_sought r.discovery_table k ≡ true → Step own r (note_relayed_discovery r k)
  hears_reply :
      (q : RouteReply) → q.sender ≢ unknown_next_hop → Step own r (accept_route_reply r own q).0

pub data Reach (own : Nwk) (r : Routing) : Routing → Type 0 where
  here : Reach own r r
  next : {s t : Routing} → Reach own r s → Step own s t → Reach own r t

Step-IsValid : {own : Nwk} {r s : Routing} → Step own r s → IsValid own r → IsValid own s
Step-IsValid {own} {r} (restores k hop cost h) v =
    Invariant.restore_route-IsValid own r v k hop cost h
Step-IsValid {own} {r} (fails k) v = Invariant.mark_discovery_failed-IsValid own r v k
Step-IsValid {own} {r} (uses k) v = Invariant.record_usage-IsValid own r v k
Step-IsValid {own} {r} decays v = Invariant.decay_activity-IsValid own r v
Step-IsValid {own} {r} (invalidates hop) v = Invariant.invalidate_via-IsValid own r v hop
Step-IsValid {own} {r} (removes k) v = Invariant.remove_route-IsValid own r v k
Step-IsValid {own} {r} (relays_source_routed k) v =
    Invariant.note_source_routed_frame-IsValid own r v k
Step-IsValid {own} {r} (stores_record k relays) v =
    Invariant.store_route_record-IsValid own r v k relays
Step-IsValid {own} {r} (removes_record k) v = Invariant.remove_route_record-IsValid own r v k
Step-IsValid {own} {r} (counts_error n) v = Invariant.note_route_error-IsValid own r v n
Step-IsValid {own} {r} (counts_failure n) v = Invariant.note_delivery_failure-IsValid own r v n
Step-IsValid {own} {r} resets v = Invariant.reset_mtorr_triggers-IsValid own r v
Step-IsValid {own} {r} (begins k now wait h) v = Steps.begin_discovery-IsValid own r k now wait v h
Step-IsValid {own} {r} (advertises now wait h) v =
    Steps.begin_many_to_one-IsValid own r now wait v h
Step-IsValid {own} {r} (hears_request q now wait h) v =
    RequestSteps.accept_route_request-IsValid own r q now wait h v
Step-IsValid {own} {r} (relays_request k h) v =
    RequestSteps.note_relayed_discovery-IsValid own r k h v
Step-IsValid {own} {r} (hears_reply q h) v = ReplySteps.accept_route_reply-IsValid own r q h v

pub Reach-IsValid : {own : Nwk} {r s : Routing} → IsValid own r → Reach own r s → IsValid own s
Reach-IsValid v here = v
Reach-IsValid v (next path st) = Step-IsValid st (Reach-IsValid v path)

-- In every routing state that a history of operations reaches from the default state, whose hops
-- are never 0xFFFF, whose new request identifiers are free and whose relayed requests have a
-- discovery, the lookup of a next hop never panics, and each route that is underway has a
-- discovery toward it.
pub reachable_routes :
    {own : Nwk} {r : Routing}
    → Reach own default r
    → (k : Nwk)
    → (next_hop_of r k ≢ err tt)
      × (route_status r k ≡ some Status.discovery_underway → is_sought r.discovery_table k ≡ true)
unfolding route_status
reachable_routes {own} {r} path k =
    let v = Reach-IsValid (default-IsValid own) path in
    (
      next_hop_of_safe own r k v,
      λ e. elim (Option-cases (FlatMap.get r.route_table k)) [
        | inl missing ↦ absurd (ground (arith, missing))
        | inr (entry, g) ↦ (v.routes k entry g).1 (ground (arith, g))
      ],
    )

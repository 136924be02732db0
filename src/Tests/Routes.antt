-- ===== src/Tests/Routes.antt =====
-- Inputs for the theorems on routing.
use ziggurat.Base.{
  ℕ, ◌≡◌, ◌≢◌, ◌≤◌, ◌↔◌, refl, true, false, none, some, List, [], ◌∷◌, ◌++◌, arith, ok, err, All,
}
use ziggurat.Base.Order.{nat_ord, pair_ord}
use ziggurat.Types.{Nwk}
use ziggurat.FlatMap
use ziggurat.FlatMap.{FlatMap}
use ziggurat.FlatMap.Everywhere.{get-insert_self}
use ziggurat.Time
use ziggurat.Nwk.Routing.{
  Routing, Route, TableEntry, DiscoveryEntry, Status, default, restore_route, next_hop_of,
  route_status, store_route_record, route_to, new_entry,
}
use ziggurat.Nwk.Routing.Records.{store_route_record_routes}
use ziggurat.Nwk.Routing.Discovery
use ziggurat.Nwk.Routing.Discovery.{
  is_sought, begin_discovery, accept_route_request, expire_discoveries, RouteRequest, ManyToOne,
  own_discovery, next_request_id,
}
use ziggurat.Nwk.Routing.Discovery.Expiry.{live_table}
use ziggurat.Nwk.Routing.Discovery.Invariant.{IsValid, default-IsValid}
use ziggurat.Nwk.Routing.Discovery.Cost.{
  request_key, accept_route_request-NoWorse, accept_route_request_decision, own_request_no_echo,
}
use ziggurat.Nwk.Routing.Discovery.PathCost.{NoWorse}
use ziggurat.Nwk.Routing.Discovery.Collision.{begin_discovery_collides}
use ziggurat.Nwk.Routing.Discovery.History.{Step, Reach, Reach-IsValid, reachable_routes}

abbrev request : RouteRequest
request = record {
  originator = 40;
  request_id = 9;
  destination = 1;
  sender = 3;
  updated_path_cost = 2;
  many_to_one = ManyToOne.not_many_to_one;
}

-- A restored route, a discovery of ours, and a request heard from a neighbor.
abbrev one_route : Routing
one_route = restore_route default 40 2 5

abbrev sought : Routing
sought = (begin_discovery one_route 1 50 100 1000).0

abbrev heard : Routing
heard = (accept_route_request sought request 200 1000).0

free : FlatMap.get (live_table one_route 100) (1, next_request_id one_route) ≡ none
unfolding default restore_route expire_discoveries Discovery.drop_stuck
    Discovery.expired_destinations FlatMap.new FlatMap.get FlatMap.index_of FlatMap.search
    FlatMap.retain FlatMap.retain_mut
free = refl

history : Reach 1 default heard
history =
    Reach.next
      (Reach.next (Reach.next Reach.here (Step.restores 40 2 5 (omega arith)))
        (Step.begins 50 100 1000 free))
      (Step.hears_request request 200 1000 (omega arith))

reachable_routes_example :
    (next_hop_of heard 50 ≢ err tt)
    × (route_status heard 50 ≡ some Status.discovery_underway
        → is_sought heard.discovery_table 50 ≡ true)
reachable_routes_example = reachable_routes history 50

abbrev restored : TableEntry
restored = record (new_entry 40 Status.active 2) { path_cost = 5 }

known : FlatMap.get one_route.route_table 40 ≡ some restored
unfolding default restore_route
known = get-insert_self FlatMap.new 40 restored

one_route-IsValid : IsValid 1 one_route
one_route-IsValid =
    Reach-IsValid (default-IsValid 1) (Reach.next Reach.here (Step.restores 40 2 5 (omega arith)))

accept_route_request-NoWorse_example :
    (f : TableEntry) × (FlatMap.get
        (accept_route_request one_route request 200 1000).0.route_table
        40
      ≡ some f)
    × NoWorse restored f
accept_route_request-NoWorse_example =
    accept_route_request-NoWorse one_route request 200 1000 40 restored
      one_route-IsValid.sorted_routes known refl

accept_route_request_decision_example :
    (((accept_route_request sought request 200 1000).1.accepted ≡ true) ↔ (
      (d : DiscoveryEntry)
      → FlatMap.get (live_table sought 200) (request_key request) ≡ some d
      → 2 ≤ d.forward_cost))
    × ((accept_route_request sought request 200 1000).1.accepted ≡ true
        → (d : DiscoveryEntry) × (FlatMap.get heard.discovery_table (request_key request) ≡ some d)
          × (d.forward_cost ≡ 2)
          × (d.sender_address ≡ 3))
accept_route_request_decision_example = accept_route_request_decision sought request 200 1000

abbrev echo : ℕ → RouteRequest
echo id = record {
  originator = 1;
  request_id = id;
  destination = 50;
  sender = 3;
  updated_path_cost = 2;
  many_to_one = ManyToOne.not_many_to_one;
}

sought-IsValid : IsValid 1 sought
sought-IsValid = Reach-IsValid (default-IsValid 1) (
    Reach.next (Reach.next Reach.here (Step.restores 40 2 5 (omega arith)))
      (Step.begins 50 100 1000 free))

own_request_no_echo_example :
    (accept_route_request sought
      (echo (begin_discovery one_route 1 50 100 1000).1)
      200
      1000).1.accepted
    ≡ false
unfolding Time.later
own_request_no_echo_example =
    own_request_no_echo one_route 1 50 100 1000 (echo (begin_discovery one_route 1 50 100 1000).1)
      200 1000 sought-IsValid.sorted_discoveries free refl (omega arith) (ground arith)

-- 256 discoveries later, the identifier of a discovery that is still live comes round.
abbrev wrapped : Routing
wrapped = record sought { request_sequence_number = 0 }

live : FlatMap.get (live_table wrapped 200) (1, 1) ≡ some (own_discovery 1 1 50 1100)
unfolding default restore_route expire_discoveries Discovery.drop_stuck
    Discovery.expired_destinations FlatMap.new FlatMap.get FlatMap.index_of FlatMap.search
    FlatMap.retain FlatMap.retain_mut FlatMap.insert FlatMap.or_insert FlatMap.modify
    begin_discovery Time.later
live = refl

elsewhere : is_sought (live_table wrapped 200) 60 ≡ false
unfolding default restore_route expire_discoveries Discovery.drop_stuck
    Discovery.expired_destinations FlatMap.new FlatMap.get FlatMap.index_of FlatMap.search
    FlatMap.retain FlatMap.retain_mut FlatMap.insert FlatMap.or_insert FlatMap.modify
    begin_discovery Time.later FlatMap.values
elsewhere = refl

begin_discovery_collides_example :
    (is_sought (begin_discovery wrapped 1 60 200 1000).0.discovery_table 60 ≡ false)
    × (route_status (expire_discoveries (begin_discovery wrapped 1 60 200 1000).0 90000) 60
        ≡ some Status.discovery_underway)
begin_discovery_collides_example =
    begin_discovery_collides wrapped 1 60 200 1000 (own_discovery 1 1 50 1100)
      sought-IsValid.sorted_routes sought-IsValid.sorted_discoveries live elsewhere 90000

abbrev recorded : Routing
recorded = (store_route_record default 70 (20 ∷ 21 ∷ [])).0

store_route_record_routes_example :
    (FlatMap.get recorded.route_record_table 70 ≡ some (20 ∷ 21 ∷ []))
    × ((before : List Nwk) (x : Nwk) (rest : List Nwk)
        → 20 ∷ 21 ∷ [] ≡ before ++ x ∷ rest
        → All (λ y. y ≢ x) rest
        → FlatMap.get recorded.route_record_table x ≡ some rest)
    × ((k : Nwk)
        → k ≢ 70
        → All (λ x. x ≢ k) (20 ∷ 21 ∷ [])
        → FlatMap.get recorded.route_record_table k ≡ FlatMap.get default.route_record_table k)
    × (((store_route_record default 70 (20 ∷ 21 ∷ [])).1 ≡ true)
        ↔ (FlatMap.get default.route_record_table 70 ≢ some (20 ∷ 21 ∷ [])))
store_route_record_routes_example =
    store_route_record_routes default 70 (20 ∷ 21 ∷ []) (ground arith)

embeds : route_to recorded 70 12 ≡ ok (some (Route.source_routed (20 ∷ 21 ∷ [])))
unfolding route_to
embeds = ground (arith, store_route_record_routes_example.0)

abbrev relays : List Nwk
relays = 20 ∷ 21 ∷ []

-- ===== src/Nwk/Routing/Discovery/Invariant.antt =====
-- The routing invariant: tables sorted, active routes usable, discoveries answerable, and no route
-- left underway without a discovery. Every operation keeps it.
use ziggurat.Base.{ℕ, ◌≡◌, ◌≢◌, true, List, arith, inl, inr, Option-cases, err}
use ziggurat.Types.{Nwk}
use ziggurat.Base.Order.{nat_ord, pair_ord}
use ziggurat.FlatMap
use ziggurat.FlatMap.{FlatMap}
use ziggurat.FlatMap.Sorted.{IsSorted}
use ziggurat.FlatMap.StaysSorted.{
  insert-IsSorted, remove-IsSorted, modify-IsSorted, update_values-IsSorted, new-IsSorted,
}
use ziggurat.FlatMap.Everywhere.{
  Everywhere, Everywhere-insert, Everywhere-modify, Everywhere-update_values, Everywhere-remove,
  Everywhere-new,
}
use ziggurat.Nwk.Routing.{
  Routing, TableEntry, DiscoveryEntry, Status, is_active, is_underway, unknown_next_hop, default,
  new_entry, mark_discovery_failed, record_usage, used, decay_activity, decayed, invalidate_via,
  invalidated, remove_route, restore_route, note_source_routed_frame, record_noted, with_status,
  next_hop_of, note_route_error, note_delivery_failure, reset_mtorr_triggers, store_route_record,
  remove_route_record,
}
use ziggurat.Nwk.Routing.Discovery.{DiscoveryTable, is_sought}

-- A route entry is usable if active, and is sought if underway.
abbrev pub GoodRoute : DiscoveryTable → Nwk → TableEntry → Type 0
GoodRoute table k e =
    (is_active e.status ≡ true → e.next_hop_address ≢ unknown_next_hop)
    × (is_underway e.status ≡ true → is_sought table k ≡ true)

-- A discovery of another device knows who sent it.
abbrev pub GoodDiscovery : Nwk → Nwk × ℕ → DiscoveryEntry → Type 0
GoodDiscovery own key d = key.0 ≢ own → d.sender_address ≢ unknown_next_hop

pub record IsValid (own : Nwk) (r : Routing) : Type 0 where
  pub sorted_routes : IsSorted r.route_table
  pub sorted_discoveries : IsSorted r.discovery_table
  pub routes : Everywhere (GoodRoute r.discovery_table) r.route_table
  pub discoveries : Everywhere (GoodDiscovery own) r.discovery_table

pub default-IsValid : (own : Nwk) → IsValid own default
unfolding default
default-IsValid own = record {
  sorted_routes = new-IsSorted Nwk TableEntry;
  sorted_discoveries = new-IsSorted (Nwk × ℕ) DiscoveryEntry;
  routes = Everywhere-new (GoodRoute FlatMap.new);
  discoveries = Everywhere-new (GoodDiscovery own);
}

-- In a valid state the lookup of a next hop does not panic.
pub next_hop_of_safe :
    (own : Nwk) (r : Routing) (k : Nwk) → IsValid own r → next_hop_of r k ≢ err tt
unfolding next_hop_of
next_hop_of_safe own r k v e = elim (Option-cases (FlatMap.get r.route_table k)) [
  | inl g ↦ ground (arith, g)
  | inr (entry, g) ↦ ground (arith, g, (v.routes k entry g).0)
]

module _ (own : Nwk) (r : Routing) (v : IsValid own r) where
  -- The operations on single entries.
  pub mark_discovery_failed-IsValid : (k : Nwk) → IsValid own (mark_discovery_failed r k)
  unfolding mark_discovery_failed
  mark_discovery_failed-IsValid k = record {
    sorted_routes =
        modify-IsSorted r.route_table k (with_status Status.discovery_failed) v.sorted_routes;
    sorted_discoveries = v.sorted_discoveries;
    routes =
        Everywhere-modify (GoodRoute r.discovery_table) r.route_table k
          (with_status Status.discovery_failed) v.routes (λ e g. ground arith);
    discoveries = v.discoveries;
  }

  pub record_usage-IsValid : (k : Nwk) → IsValid own (record_usage r k)
  unfolding record_usage
  record_usage-IsValid k = record {
    sorted_routes = modify-IsSorted r.route_table k used v.sorted_routes;
    sorted_discoveries = v.sorted_discoveries;
    routes =
        Everywhere-modify (GoodRoute r.discovery_table) r.route_table k used v.routes
          (λ e g. v.routes k e g);
    discoveries = v.discoveries;
  }

  pub note_source_routed_frame-IsValid : (k : Nwk) → IsValid own (note_source_routed_frame r k)
  unfolding note_source_routed_frame
  note_source_routed_frame-IsValid k = record {
    sorted_routes = modify-IsSorted r.route_table k record_noted v.sorted_routes;
    sorted_discoveries = v.sorted_discoveries;
    routes =
        Everywhere-modify (GoodRoute r.discovery_table) r.route_table k record_noted v.routes
          (λ e g. v.routes k e g);
    discoveries = v.discoveries;
  }

  pub decay_activity-IsValid : IsValid own (decay_activity r)
  unfolding decay_activity
  decay_activity-IsValid = record {
    sorted_routes = update_values-IsSorted decayed r.route_table v.sorted_routes;
    sorted_discoveries = v.sorted_discoveries;
    routes =
        Everywhere-update_values (GoodRoute r.discovery_table) r.route_table decayed
          (λ k e g. v.routes k e g);
    discoveries = v.discoveries;
  }

  pub invalidate_via-IsValid : (hop : Nwk) → IsValid own (invalidate_via r hop)
  unfolding invalidate_via
  invalidate_via-IsValid hop = record {
    sorted_routes = update_values-IsSorted (invalidated hop) r.route_table v.sorted_routes;
    sorted_discoveries = v.sorted_discoveries;
    routes =
        Everywhere-update_values (GoodRoute r.discovery_table) r.route_table (invalidated hop)
          (λ k e g. ground (arith, v.routes k e g));
    discoveries = v.discoveries;
  }

  pub remove_route-IsValid : (k : Nwk) → IsValid own (remove_route r k).0
  unfolding remove_route
  remove_route-IsValid k = record {
    sorted_routes = remove-IsSorted r.route_table k v.sorted_routes;
    sorted_discoveries = v.sorted_discoveries;
    routes =
        Everywhere-remove (GoodRoute r.discovery_table) r.route_table k v.sorted_routes v.routes;
    discoveries = v.discoveries;
  }

  pub restore_route-IsValid :
      (k hop : Nwk) (cost : ℕ) → hop ≢ unknown_next_hop → IsValid own (restore_route r k hop cost)
  unfolding restore_route
  restore_route-IsValid k hop cost known =
      let e : TableEntry = record (new_entry k Status.active hop) { path_cost = cost } in
      record {
        sorted_routes = insert-IsSorted r.route_table k e v.sorted_routes;
        sorted_discoveries = v.sorted_discoveries;
        routes =
            Everywhere-insert (GoodRoute r.discovery_table) r.route_table k e v.routes
              (λ _. known, λ u. ground arith);
        discoveries = v.discoveries;
      }

  -- The counters and the route records leave both tables as they are.
  pub note_route_error-IsValid : (n : ℕ) → IsValid own (note_route_error r n).0
  unfolding note_route_error
  note_route_error-IsValid n = record {
    sorted_routes = v.sorted_routes;
    sorted_discoveries = v.sorted_discoveries;
    routes = v.routes;
    discoveries = v.discoveries;
  }

  pub note_delivery_failure-IsValid : (n : ℕ) → IsValid own (note_delivery_failure r n).0
  unfolding note_delivery_failure
  note_delivery_failure-IsValid n = record {
    sorted_routes = v.sorted_routes;
    sorted_discoveries = v.sorted_discoveries;
    routes = v.routes;
    discoveries = v.discoveries;
  }

  pub reset_mtorr_triggers-IsValid : IsValid own (reset_mtorr_triggers r)
  unfolding reset_mtorr_triggers
  reset_mtorr_triggers-IsValid = record {
    sorted_routes = v.sorted_routes;
    sorted_discoveries = v.sorted_discoveries;
    routes = v.routes;
    discoveries = v.discoveries;
  }

  pub store_route_record-IsValid :
      (k : Nwk) (relays : List Nwk) → IsValid own (store_route_record r k relays).0
  unfolding store_route_record
  store_route_record-IsValid k relays = record {
    sorted_routes = v.sorted_routes;
    sorted_discoveries = v.sorted_discoveries;
    routes = v.routes;
    discoveries = v.discoveries;
  }

  pub remove_route_record-IsValid : (k : Nwk) → IsValid own (remove_route_record r k).0
  unfolding remove_route_record
  remove_route_record-IsValid k = record {
    sorted_routes = v.sorted_routes;
    sorted_discoveries = v.sorted_discoveries;
    routes = v.routes;
    discoveries = v.discoveries;
  }

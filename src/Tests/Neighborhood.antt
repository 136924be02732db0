-- ===== src/Tests/Neighborhood.antt =====
-- Inputs for the theorems on the neighbor table.
use ziggurat.Base.{
  ◌≡◌, ◌≢◌, ◌<◌, ◌↔◌, true, false, none, some, [], ◌∷◌, if◌then◌else◌, ◌==◌, ltb, ◌&&◌, any,
}
use ziggurat.Base.Order.{nat_ord}
use ziggurat.Types.{Eui64}
use ziggurat.FlatMap
use ziggurat.Time.{later}
use ziggurat.Nwk.Neighbors.{
  Neighbors, TableEntry, NwkDeviceType, Relationship, is_router, is_end_device, default,
}
use ziggurat.Nwk.Neighbors.Children.{
  ChildDescriptor, new_child, attached, upsert_child, evict_timed_out_children, next_child_timeout,
}
use ziggurat.Nwk.Neighbors.Children.Eviction.{
  IsExpired, is_due, eviction_survivors, next_child_timeout_due,
}
use ziggurat.Nwk.Neighbors.Links.{
  NwkLinkStatusCommand, on_link_status, age, expected_broadcast_relayers,
}
use ziggurat.Nwk.Neighbors.Links.Aging.{age_relayers}
use ziggurat.Nwk.Neighbors.Links.Status.{found_entry, listed_cost, on_link_status_link}
use ziggurat.Nwk.Neighbors.Valid.{IsValid}
use ziggurat.Nwk.Neighbors.Histories.{Step, Reach, reachable_neighbors}

abbrev lamp : ChildDescriptor
lamp = record {
  eui64 = 900;
  network_address = 70;
  device_type = NwkDeviceType.end_device;
  rx_on_when_idle = false;
  device_timeout = 500;
  relationship = Relationship.child;
}

abbrev command : NwkLinkStatusCommand
command = record {
  is_first_frame = true;
  is_last_frame = true;
  link_statuses =
      record { address = 1; incoming_cost = 3; outgoing_cost = 1 }
      ∷ record { address = 8; incoming_cost = 2; outgoing_cost = 2 }
      ∷ [];
}

abbrev one_child : Neighbors
one_child = upsert_child default lamp 100

abbrev linked : Neighbors
linked = (on_link_status one_child 1 800 20 140 command 200).0

path : Reach linked
path =
    Reach.next (Reach.next Reach.start (Step.attaches lamp 100))
      (Step.hears_status 1 800 20 140 command 200)

linked-IsValid : IsValid linked
linked-IsValid = reachable_neighbors path

reachable_neighbors_example : IsValid linked
reachable_neighbors_example = reachable_neighbors path

abbrev attached_lamp : TableEntry
attached_lamp = attached lamp 100 (new_child lamp 100)

eviction_survivors_example :
    (FlatMap.get (evict_timed_out_children linked 700).0.table 900 ≡ some attached_lamp)
    ↔ ((FlatMap.get linked.table 900 ≡ some attached_lamp) × ¬ IsExpired 700 attached_lamp)
eviction_survivors_example =
    eviction_survivors linked 700 900 attached_lamp linked-IsValid.valid_table.sorted
      linked-IsValid.valid_table.keyed

next_child_timeout_due_example :
    ((evict_timed_out_children linked 700).1 ≡ [])
    ↔ (is_due 700 (next_child_timeout linked) ≡ false)
next_child_timeout_due_example = next_child_timeout_due linked 700

age_relayers_example :
    (any (λ x. x == 20) (expected_broadcast_relayers (age linked 900 600).0) ≡ true) ↔ (
      (k : Eui64) × (e : TableEntry) × (FlatMap.get linked.table k ≡ some e)
      × (e.network_address ≡ 20)
      × (is_router e.device_type ≡ true)
      × (0 < e.outgoing_cost)
      × (900 < later e.last_link_status_timestamp 600))
age_relayers_example = age_relayers linked 900 600 20 linked-IsValid.valid_table.sorted

on_link_status_link_example :
    ((f : TableEntry) × (FlatMap.get linked.table 800 ≡ some f)
      × (f.outgoing_cost ≡ listed_cost 1 command.link_statuses 0)
      × (f.network_address ≡ (found_entry one_child 800 20 140 200).network_address)
      × (f.last_link_status_timestamp ≡ 200)
      × (is_end_device f.device_type ≡ false))
    × ((on_link_status one_child 1 800 20 140 command 200).1 ≡ (
        if ltb 0 (found_entry one_child 800 20 140 200).outgoing_cost
          && (listed_cost 1 command.link_statuses 0 == 0)
        then some (found_entry one_child 800 20 140 200).network_address
        else none))
    × ((k : Eui64) → k ≢ 800 → FlatMap.get linked.table k ≡ FlatMap.get one_child.table k)
on_link_status_link_example = on_link_status_link one_child 1 800 20 140 command 200

-- ===== src/Nwk/Neighbors/Histories.antt =====
-- Histories of the neighbor table: a step for each operation that changes it.
use ziggurat.Base.{ℕ, ◌≡◌, Option, List, arith}
use ziggurat.Base.Order.{nat_ord}
use ziggurat.Types.{Nwk, Eui64}
use ziggurat.FlatMap.StaysSorted.{new-IsSorted}
use ziggurat.FlatMap.Sizes.{len-new}
use ziggurat.FlatMap.Everywhere.{Everywhere-new}
use ziggurat.Nwk.Neighbors.{Neighbors, TableEntry, LqaSamples, default, record_lqa}
use ziggurat.Nwk.Neighbors.Valid.{IsValid, record_lqa-IsValid}
use ziggurat.Nwk.Neighbors.Children
use ziggurat.Nwk.Neighbors.Children.{
  refresh_child_timeout, set_child_timeout, update_network_address, take_child,
  remove_claimed_children, process_parent_annce, evict_timed_out_children, ChildDescriptor,
  upsert_child,
}
use ziggurat.Nwk.Neighbors.Links.{
  age, decay_activity, record_outbound_activity, record_inbound_activity, record_transmit_failure,
  reset_transmit_failures, NwkLinkStatusCommand, on_link_status,
}
use ziggurat.Nwk.Neighbors.Changes
use ziggurat.Nwk.Neighbors.Removals

pub data Step (n : Neighbors) : Neighbors → Type 0 where
  samples : (sender : Nwk) (lqi : ℕ) → Step n (record_lqa n sender lqi)
  polls :
      (eui64 : Option Eui64) (nwk : Option Nwk) (now : ℕ)
      → Step n (refresh_child_timeout n eui64 nwk now).0
  negotiates :
      (nwk : Nwk) (timeout configuration now : ℕ)
      → Step n (set_child_timeout n nwk timeout configuration now).0
  readdresses : (eui64 : Eui64) (nwk : Nwk) → Step n (update_network_address n eui64 nwk)
  takes : (eui64 : Eui64) → Step n (take_child n eui64).0
  yields : (claimed : List Eui64) → Step n (remove_claimed_children n claimed).0
  hears_announcement : (announced : List Eui64) → Step n (process_parent_annce n announced).0
  evicts : (now : ℕ) → Step n (evict_timed_out_children n now).0
  attaches : (c : ChildDescriptor) (now : ℕ) → Step n (upsert_child n c now)
  drops : (eui64 : Eui64) → Step n (Children.remove n eui64)
  ages : (now max_age : ℕ) → Step n (age n now max_age).0
  calms : Step n (decay_activity n)
  forwards : (eui64 : Eui64) → Step n (record_outbound_activity n eui64)
  relays : (nwk : Nwk) → Step n (record_inbound_activity n nwk)
  misses : (eui64 : Eui64) → Step n (record_transmit_failure n eui64)
  restarts : Step n (reset_transmit_failures n)
  hears_status :
      (own : Nwk) (source_ieee : Eui64) (source_nwk : Nwk) (lqi : ℕ)
      (command : NwkLinkStatusCommand) (now : ℕ)
      → Step n (on_link_status n own source_ieee source_nwk lqi command now).0

pub data Reach : Neighbors → Type 0 where
  start : Reach default
  next : {m n : Neighbors} → Reach m → Step m n → Reach n

default-IsValid : IsValid default
unfolding default
default-IsValid = record {
  valid_table = record {
    sorted = new-IsSorted Eui64 TableEntry;
    keyed = Everywhere-new (λ k e. e.extended_address ≡ k);
  };
  pending_sorted = new-IsSorted Nwk LqaSamples;
  pending_fits = omega (arith, len-new Nwk LqaSamples);
}

Step-IsValid : {m n : Neighbors} → Step m n → IsValid m → IsValid n
Step-IsValid {m} (samples sender lqi) v = record_lqa-IsValid m sender lqi v
Step-IsValid {m} (polls eui64 nwk now) v = Changes.refresh_child_timeout-IsValid m v eui64 nwk now
Step-IsValid {m} (negotiates nwk timeout configuration now) v =
    Changes.set_child_timeout-IsValid m v nwk timeout configuration now
Step-IsValid {m} (readdresses eui64 nwk) v = Changes.update_network_address-IsValid m v eui64 nwk
Step-IsValid {m} (takes eui64) v = Changes.take_child-IsValid m v eui64
Step-IsValid {m} (yields claimed) v = Removals.remove_claimed_children-IsValid m v claimed
Step-IsValid {m} (hears_announcement announced) v =
    Removals.process_parent_annce-IsValid m v announced
Step-IsValid {m} (evicts now) v = Removals.evict_timed_out_children-IsValid m v now
Step-IsValid {m} (attaches c now) v = Changes.upsert_child-IsValid m v c now
Step-IsValid {m} (drops eui64) v = Changes.remove-IsValid m v eui64
Step-IsValid {m} (ages now max_age) v = Changes.age-IsValid m v now max_age
Step-IsValid {m} calms v = Changes.decay_activity-IsValid m v
Step-IsValid {m} (forwards eui64) v = Changes.record_outbound_activity-IsValid m v eui64
Step-IsValid {m} (relays nwk) v = Changes.record_inbound_activity-IsValid m v nwk
Step-IsValid {m} (misses eui64) v = Changes.record_transmit_failure-IsValid m v eui64
Step-IsValid {m} restarts v = Changes.reset_transmit_failures-IsValid m v
Step-IsValid {m} (hears_status own source_ieee source_nwk lqi command now) v =
    Removals.on_link_status-IsValid m v own source_ieee source_nwk lqi command now

-- In every state that a history of operations reaches from the empty neighbor table, the table is
-- sorted and holds each entry under its own extended address, and the buffers of senders without
-- an entry are sorted and at most 64.
pub reachable_neighbors : {n : Neighbors} → Reach n → IsValid n
reachable_neighbors start = default-IsValid
reachable_neighbors (next path st) = Step-IsValid st (reachable_neighbors path)

-- ===== src/Nwk/Routing/Discovery/Collision.antt =====
-- Request identifiers are a `u8`: what happens where one comes round while its discovery lasts.
use mathlib.Core.Option
use ziggurat.Base.{ℕ, ◌≡◌, ◌∙◌, ap, false, not, some, ◌==◌, ◌&&◌, any_narrower, arith}
use ziggurat.Types.{Nwk}
use ziggurat.Base.Order.{nat_ord, pair_ord}
use ziggurat.FlatMap
use ziggurat.FlatMap.{FlatMap}
use ziggurat.FlatMap.Sorted.{IsSorted}
use ziggurat.FlatMap.StaysSorted.{modify-IsSorted, or_insert-IsSorted}
use ziggurat.Time.{later}
use ziggurat.FlatMap.Laws.{get-modify, get-or_insert, or_insert_present}
use ziggurat.Nwk.Routing.{
  Routing, TableEntry, DiscoveryEntry, Status, new_entry, unknown_next_hop, with_status,
  route_status,
}
use ziggurat.Nwk.Routing.Discovery.{
  is_sought, expire_discoveries, begin_discovery, own_discovery, next_request_id, seek, is_live,
}
use ziggurat.Nwk.Routing.Discovery.Expiry.{live_table, get-expire_discoveries, expire-IsSorted}

seek_underway :
    (routes : FlatMap Nwk TableEntry) (k : Nwk)
    → Option.map (λ e. e.status) (FlatMap.get (seek routes k) k) ≡ some Status.discovery_underway
seek_underway routes k =
    let entry = new_entry k Status.inactive unknown_next_hop in
    ground (
      arith,
      get-modify (FlatMap.or_insert routes k entry).0 k k (with_status Status.discovery_underway),
      get-or_insert routes k k entry,
    )

seek-IsSorted :
    (routes : FlatMap Nwk TableEntry) (k : Nwk) → IsSorted routes → IsSorted (seek routes k)
seek-IsSorted routes k s =
    let entry = new_entry k Status.inactive unknown_next_hop in
    modify-IsSorted (FlatMap.or_insert routes k entry).0 k (with_status Status.discovery_underway)
      (or_insert-IsSorted routes k entry s)

module _ (r : Routing) (own destination : Nwk) (now wait : ℕ) where
  begun : Routing
  begun = (begin_discovery r own destination now wait).0

  begun-underway : route_status begun destination ≡ some Status.discovery_underway
  unfolding begun begin_discovery route_status
  begun-underway = seek_underway (expire_discoveries r now).route_table destination

  begun-IsSorted : IsSorted (expire_discoveries r now).route_table → IsSorted begun.route_table
  unfolding begun begin_discovery
  begun-IsSorted s = seek-IsSorted (expire_discoveries r now).route_table destination s

  begun-same_discoveries :
      (d : DiscoveryEntry)
      → FlatMap.get (live_table r now) (own, next_request_id r) ≡ some d
      → begun.discovery_table ≡ live_table r now
  unfolding begun begin_discovery expire_discoveries
  begun-same_discoveries d live =
      ap (λ x. x.0)
        (or_insert_present (live_table r now) (own, next_request_id r)
          (own_discovery own (next_request_id r) destination (later now wait)) live)

-- A route that is underway and that no discovery seeks outlives every expiry.
unsought_stays :
    (r : Routing) (k : Nwk) (now : ℕ)
    → IsSorted r.route_table
    → is_sought r.discovery_table k ≡ false
    → route_status (expire_discoveries r now) k ≡ route_status r k
unfolding route_status
unsought_stays r k now s missing = ground (
  arith,
  get-expire_discoveries r now k s,
  any_narrower (λ d. not (is_live now d) && (d.destination_address == k))
      (λ d. d.destination_address == k) (FlatMap.values r.discovery_table) (λ d e. ground arith)
      missing,
)

-- In sorted tables, where the next request identifier is that of a live discovery of ours and no
-- live discovery is toward the destination, beginning a discovery leaves the route to the
-- destination underway with no discovery toward it, and no later expiry clears it.
pub begin_discovery_collides :
    (r : Routing) (own destination : Nwk) (now wait : ℕ) (d : DiscoveryEntry)
    → IsSorted r.route_table
    → IsSorted r.discovery_table
    → FlatMap.get (live_table r now) (own, next_request_id r) ≡ some d
    → is_sought (live_table r now) destination ≡ false
    → (after : ℕ)
    → let s = (begin_discovery r own destination now wait).0 in
      (is_sought s.discovery_table destination ≡ false)
      × (route_status (expire_discoveries s after) destination ≡ some Status.discovery_underway)
unfolding begun
begin_discovery_collides r own destination now wait d sr sd live missing after =
    let unsought : is_sought (begun r own destination now wait).discovery_table destination
        ≡ false =
      ap (λ t. is_sought t destination) (begun-same_discoveries r own destination now wait d live)
      ∙ missing in
    (
      unsought,
      unsought_stays (begun r own destination now wait) destination after
            (begun-IsSorted r own destination now wait (expire-IsSorted r now sr sd).0) unsought
          ∙ begun-underway r own destination now wait,
    )

-- ===== src/Nwk/Routing/Discovery/Expiry.antt =====
-- What the expiry of discoveries keeps and drops.
use mathlib.Core.Option
use ziggurat.Base.{
  ℕ, ◌≡◌, refl, ◌∙◌, Bool, true, false, not, none, some, List, [], ◌∷◌, if◌then◌else◌, ◌==◌, ◌&&◌,
  any, filterb, any-map, any-filterb, arith, inl, inr, Bool-cases,
}
use ziggurat.Types.{Nwk}
use ziggurat.Base.Order.{nat_ord, pair_ord}
use ziggurat.FlatMap
use ziggurat.FlatMap.{FlatMap}
use ziggurat.FlatMap.Sorted.{IsSorted}
use ziggurat.FlatMap.StaysSorted.{remove-IsSorted, retain-IsSorted}
use ziggurat.FlatMap.Laws.{get-remove, get-retain}
use ziggurat.FlatMap.Entries.{any-values, any_of_get}
use ziggurat.Nwk.Routing.{Routing, TableEntry, is_underway}
use ziggurat.Nwk.Routing.Discovery.{
  DiscoveryTable, is_sought, is_stuck, drop_one, drop_stuck, is_live, expired_destinations,
  expire_discoveries,
}

abbrev member : Nwk → List Nwk → Bool
member x xs = any (λ y. y == x) xs

drop_one-IsSorted :
    (live : DiscoveryTable) (routes : FlatMap Nwk TableEntry) (d : Nwk)
    → IsSorted routes
    → IsSorted (drop_one live routes d)
unfolding drop_one
drop_one-IsSorted live routes d s = ground (arith, remove-IsSorted routes d s)

drop_stuck-IsSorted :
    (live : DiscoveryTable) (routes : FlatMap Nwk TableEntry) (ds : List Nwk)
    → IsSorted routes
    → IsSorted (drop_stuck live routes ds)
unfolding drop_stuck
drop_stuck-IsSorted live routes [] s = s
drop_stuck-IsSorted live routes (d ∷ ds) s =
    drop_stuck-IsSorted live (drop_one live routes d) ds (drop_one-IsSorted live routes d s)

-- A route whose discovery is over: nobody seeks it any more, and it is underway.
abbrev pub is_dropped : DiscoveryTable → FlatMap Nwk TableEntry → Nwk → Bool
is_dropped live routes k = not (is_sought live k) && is_stuck routes k

get-drop_one :
    (live : DiscoveryTable) (routes : FlatMap Nwk TableEntry) (d k : Nwk)
    → IsSorted routes
    → FlatMap.get (drop_one live routes d) k
      ≡ (if (d == k) && is_dropped live routes k then none else FlatMap.get routes k)
unfolding drop_one
get-drop_one live routes d k s = elim (Bool-cases (d == k)) [
  | inl same ↦
      let e : d ≡ k = ground arith in rw (same, e) (ground (arith, get-remove routes k k s))
  | inr apart ↦ rw apart (ground (arith, get-remove routes d k s))
]

get-drop_stuck :
    (live : DiscoveryTable) (routes : FlatMap Nwk TableEntry) (ds : List Nwk) (k : Nwk)
    → IsSorted routes
    → FlatMap.get (drop_stuck live routes ds) k
      ≡ (if member k ds && is_dropped live routes k then none else FlatMap.get routes k)
unfolding drop_stuck
get-drop_stuck live routes [] k s = refl
get-drop_stuck live routes (d ∷ ds) k s = ground (
  arith,
  get-drop_stuck live (drop_one live routes d) ds k (drop_one-IsSorted live routes d s),
  get-drop_one live routes d k s,
)

-- The discovery table after the expiry.
abbrev pub live_table : Routing → ℕ → DiscoveryTable
live_table r now = (expire_discoveries r now).discovery_table

pub get-live_table :
    (r : Routing) (now : ℕ) (k : Nwk × ℕ)
    → IsSorted r.discovery_table
    → FlatMap.get (live_table r now) k
      ≡ Option.bind (FlatMap.get r.discovery_table k) (λ d. if is_live now d then some d else none)
unfolding expire_discoveries Option.bind
get-live_table r now k s =
    ground (arith, get-retain (λ _ d. (d, is_live now d)) r.discovery_table k s)

pub expire-IsSorted :
    (r : Routing) (now : ℕ)
    → IsSorted r.route_table
    → IsSorted r.discovery_table
    → IsSorted (expire_discoveries r now).route_table × IsSorted (live_table r now)
unfolding expire_discoveries
expire-IsSorted r now sr sd = (
  drop_stuck-IsSorted (FlatMap.retain (λ _ d. (d, is_live now d)) r.discovery_table) r.route_table
      (expired_destinations r.discovery_table now) sr,
  retain-IsSorted (λ _ d. (d, is_live now d)) r.discovery_table sd,
)

-- A discovery toward the destination has expired.
abbrev pub has_lapsed : DiscoveryTable → ℕ → Nwk → Bool
has_lapsed table now k =
    any (λ d. not (is_live now d) && (d.destination_address == k)) (FlatMap.values table)

member-expired :
    (table : DiscoveryTable) (now : ℕ) (k : Nwk)
    → member k (expired_destinations table now) ≡ has_lapsed table now k
unfolding expired_destinations
member-expired table now k =
    any-map (λ d. d.destination_address) (λ y. y == k)
      (filterb (λ d. not (is_live now d)) (FlatMap.values table))
    ∙ any-filterb (λ d. not (is_live now d)) (λ d. d.destination_address == k)
        (FlatMap.values table)

-- In a sorted route table the expiry of discoveries drops the route to a destination exactly if a
-- discovery toward it has lapsed, no live discovery is toward it and the route is underway; every
-- other route stays as it was.
pub get-expire_discoveries :
    (r : Routing) (now : ℕ) (k : Nwk)
    → IsSorted r.route_table
    → FlatMap.get (expire_discoveries r now).route_table k ≡ (
        if has_lapsed r.discovery_table now k && is_dropped (live_table r now) r.route_table k
        then none
        else FlatMap.get r.route_table k)
unfolding expire_discoveries
get-expire_discoveries r now k s =
    get-drop_stuck (FlatMap.retain (λ _ d. (d, is_live now d)) r.discovery_table) r.route_table
      (expired_destinations r.discovery_table now) k s
    ∙ rw (member-expired r.discovery_table now k) refl

-- Routes that are not underway outlive the expiry.
pub get-expire_settled :
    (r : Routing) (now : ℕ) (k : Nwk) (e : TableEntry)
    → IsSorted r.route_table
    → FlatMap.get r.route_table k ≡ some e
    → is_underway e.status ≡ false
    → FlatMap.get (expire_discoveries r now).route_table k ≡ some e
get-expire_settled r now k e s g u = ground (arith, get-expire_discoveries r now k s)

-- The expiry adds no route.
pub get_of_expire :
    (r : Routing) (now : ℕ) (k : Nwk) (e : TableEntry)
    → IsSorted r.route_table
    → FlatMap.get (expire_discoveries r now).route_table k ≡ some e
    → FlatMap.get r.route_table k ≡ some e
get_of_expire r now k e s g = ground (arith, get-expire_discoveries r now k s)

-- Every route that is underway has a discovery toward it.
abbrev pub Backed : DiscoveryTable → FlatMap Nwk TableEntry → Type 0
Backed table routes =
    (k : Nwk) (e : TableEntry)
    → FlatMap.get routes k ≡ some e
    → is_underway e.status ≡ true
    → is_sought table k ≡ true

-- In sorted tables where each route that is underway has a discovery toward it, each route that is
-- underway after the expiry has a live discovery toward it.
pub expire_discoveries-Backed :
    (r : Routing) (now : ℕ)
    → IsSorted r.route_table
    → IsSorted r.discovery_table
    → Backed r.discovery_table r.route_table
    → Backed (live_table r now) (expire_discoveries r now).route_table
unfolding Option.bind
expire_discoveries-Backed r now sr sd backed k e g u =
    let before = get_of_expire r now k e sr g in
    let (key, d, gd, toward) =
      any-values (λ d. d.destination_address == k) r.discovery_table sd (backed k e before u) in
    elim (Bool-cases (is_live now d)) [
      | inl live ↦
          any_of_get (λ x. x.destination_address == k) (live_table r now) key d
            (ground (arith, get-live_table r now key sd)) toward
      | inr over ↦
          let lapsed =
            any_of_get (λ x. not (is_live now x) && (x.destination_address == k)) r.discovery_table
              key d gd (ground (arith, over, toward)) in
          ground (arith, get-expire_discoveries r now k sr, lapsed, before)
    ]

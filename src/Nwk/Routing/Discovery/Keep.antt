-- ===== src/Nwk/Routing/Discovery/Keep.antt =====
-- What changes of the tables keep: the places sought, and entries that are good.
use ziggurat.Base.{ℕ, ◌≡◌, ◌≢◌, refl, subst, true, none, some, ◌==◌, arith, inl, inr, Bool-cases}
use ziggurat.Types.{Nwk}
use ziggurat.Base.Order.{nat_ord, pair_ord, key_eq}
use ziggurat.FlatMap
use ziggurat.FlatMap.{FlatMap}
use ziggurat.FlatMap.Sorted.{IsSorted}
use ziggurat.FlatMap.Laws.{get-insert, get-modify}
use ziggurat.FlatMap.Entries.{any-values, any_of_get}
use ziggurat.FlatMap.Everywhere.{Everywhere, or_insert_value, eq_of_key_eq}
use ziggurat.Nwk.Routing.{
  TableEntry, DiscoveryEntry, Status, unknown_next_hop, new_entry, consider_route,
}
use ziggurat.Nwk.Routing.Discovery.{
  DiscoveryTable, is_sought, reverse_entry, concentrator, ManyToOne,
}
use ziggurat.Nwk.Routing.Discovery.Invariant.{GoodRoute}

-- A table that keeps each discovery, with its destination, seeks what it sought.
pub sought_keep :
    (t u : DiscoveryTable)
    → IsSorted t
    → ((key : Nwk × ℕ) (d : DiscoveryEntry)
        → FlatMap.get t key ≡ some d
        → (e : DiscoveryEntry) × (FlatMap.get u key ≡ some e)
          × (e.destination_address ≡ d.destination_address))
    → (k : Nwk) → is_sought t k ≡ true
    → is_sought u k ≡ true
sought_keep t u s keep k h =
    let (key, d, g, toward) = any-values (λ x. x.destination_address == k) t s h in
    let (e, ge, same) = keep key d g in
    any_of_get (λ x. x.destination_address == k) u key e ge (ground (arith, toward, same))

pub routes_keep :
    (t u : DiscoveryTable) (routes : FlatMap Nwk TableEntry)
    → ((k : Nwk) → is_sought t k ≡ true → is_sought u k ≡ true)
    → Everywhere (GoodRoute t) routes
    → Everywhere (GoodRoute u) routes
routes_keep t u routes keep h k e g = ((h k e g).0, λ w. keep k ((h k e g).1 w))

pub insert_keep :
    (t : DiscoveryTable) (key : Nwk × ℕ) (d : DiscoveryEntry)
    → IsSorted t
    → FlatMap.get t key ≡ none
    → (k : Nwk) → is_sought t k ≡ true
    → is_sought (FlatMap.insert t key d).0 k ≡ true
insert_keep t key d s free = sought_keep t (FlatMap.insert t key d).0 s λ j e g.
    elim (Bool-cases (key_eq key j)) [
      | inl same ↦
          absurd
            (ground (arith, (subst (λ x. FlatMap.get t x ≡ none) (eq_of_key_eq key j same) free)))
      | inr apart ↦ (e, ground (arith, get-insert t key j d), refl)
    ]

pub modify_keep :
    (t : DiscoveryTable) (key : Nwk × ℕ) (f : DiscoveryEntry → DiscoveryEntry)
    → IsSorted t
    → ((d : DiscoveryEntry) → (f d).destination_address ≡ d.destination_address)
    → (k : Nwk) → is_sought t k ≡ true
    → is_sought (FlatMap.modify t key f) k ≡ true
modify_keep t key f s same = sought_keep t (FlatMap.modify t key f) s λ j e g.
    elim (Bool-cases (key_eq key j)) [
      | inl here ↦ (f e, ground (arith, get-modify t key j f), same e)
      | inr apart ↦ (e, ground (arith, get-modify t key j f), refl)
    ]

-- An entry that may be considered for a hop stays good if the hop is known.
pub consider_route-Good :
    (t : DiscoveryTable) (k : Nwk) (e : TableEntry) (hop : Nwk) (cost : ℕ)
    → hop ≢ unknown_next_hop
    → GoodRoute t k e
    → GoodRoute t k (consider_route e hop cost).0
unfolding consider_route
consider_route-Good t k e hop cost known good = ground (arith, known, good)

pub concentrator-Good :
    (t : DiscoveryTable) (k : Nwk) (m : ManyToOne) (e : TableEntry)
    → GoodRoute t k e
    → GoodRoute t k (concentrator m e)
concentrator-Good t k ManyToOne.not_many_to_one e good = good
concentrator-Good t k _ e good = good

pub reverse_entry-Good :
    (t : DiscoveryTable) (routes : FlatMap Nwk TableEntry) (k : Nwk)
    → Everywhere (GoodRoute t) routes
    → GoodRoute t k (reverse_entry routes k)
reverse_entry-Good t routes k h =
    or_insert_value (GoodRoute t) routes k (new_entry k Status.inactive unknown_next_hop) h
      (λ a. ground arith, λ u. ground arith)

-- ===== src/Nwk/Routing/Records.antt =====
-- Route records: what a stored record makes known, and which routes they give.
use ziggurat.Base.{
  ℕ, ◌≡◌, ◌≢◌, ◌<◌, ◌↔◌, refl, sym, ◌∙◌, ap, subst, Bool, true, not, Option, none, some, List, [],
  ◌∷◌, ◌++◌, All, length, arith, inl, inr, Option-cases, Result, ok, err,
}
use ziggurat.Types.{Nwk}
use ziggurat.Base.Order.{nat_ord}
use ziggurat.FlatMap
use ziggurat.FlatMap.{FlatMap}
use ziggurat.FlatMap.Laws.{get-insert}
use ziggurat.FlatMap.Everywhere.{get-insert_self}
use ziggurat.Nwk.Routing.{
  Routing, RecordTable, Route, store_suffixes, store_route_record, same_relays, holds_relays,
  route_to, as_route, next_hop_of,
}

-- A key that is no relay keeps its record.
store_suffixes_other :
    (t : RecordTable) (relays : List Nwk) (k : Nwk)
    → All (λ x. x ≢ k) relays
    → FlatMap.get (store_suffixes t relays) k ≡ FlatMap.get t k
unfolding store_suffixes
store_suffixes_other t [] k a = refl
store_suffixes_other t (x ∷ rest) k a =
    store_suffixes_other (FlatMap.insert t x rest).0 rest k a.1
    ∙ ground (arith, get-insert t x k rest, a.0)

-- Each relay is reached through the relays behind it.
store_suffixes_suffix :
    (t : RecordTable) (before : List Nwk) (x : Nwk) (rest : List Nwk)
    → All (λ y. y ≢ x) rest
    → FlatMap.get (store_suffixes t (before ++ x ∷ rest)) x ≡ some rest
unfolding store_suffixes
store_suffixes_suffix t [] x rest a =
    store_suffixes_other (FlatMap.insert t x rest).0 rest x a ∙ get-insert_self t x rest
store_suffixes_suffix t (y ∷ before) x rest a =
    store_suffixes_suffix (FlatMap.insert t y (before ++ x ∷ rest)).0 before x rest a

same_relays_iff : (xs ys : List Nwk) → (same_relays xs ys ≡ true) ↔ (xs ≡ ys)
unfolding same_relays
same_relays_iff [] [] = (λ _. refl, λ _. refl)
same_relays_iff [] (y ∷ ys) = (λ e. absurd (cc), λ e. absurd (cc))
same_relays_iff (x ∷ xs) [] = (λ e. absurd (cc), λ e. absurd (cc))
same_relays_iff (x ∷ xs) (y ∷ ys) =
    let ih = same_relays_iff xs ys in
    (λ e. ground (arith, ih.0 (ground arith)), λ e. ground (arith, ih.1 (ground arith)))

holds_relays_iff :
    (o : Option (List Nwk)) (relays : List Nwk) → (holds_relays o relays ≡ true) ↔ (o ≡ some relays)
unfolding holds_relays
holds_relays_iff none relays = (λ e. absurd (cc), λ e. absurd (cc))
holds_relays_iff (some old) relays = (
  λ e. ap some ((same_relays_iff old relays).0 e),
  λ e. (same_relays_iff old relays).1 (ground arith),
)

All-middle {μ} :
    (P : Nwk → Type μ) (before : List Nwk) (x : Nwk) (rest : List Nwk)
    → All P (before ++ x ∷ rest)
    → P x
All-middle P [] x rest a = a.0
All-middle P (y ∷ before) x rest a = All-middle P before x rest a.1

not_held : {b : Bool} → b ≢ true → not b ≡ true
not_held {b} h = ground (arith, h)

-- The table gives next hops only.
as_route_next :
    (o : Result (Option Nwk) (Unit {0})) (relays : List Nwk)
    → as_route o ≢ ok (some (Route.source_routed relays))
as_route_next (ok none) relays e = absurd (cc)
as_route_next (ok (some hop)) relays e = absurd (cc)
as_route_next (err x) relays e = absurd (cc)

-- After a route record was stored whose source is not among its relays, the source is reached
-- through all relays, each relay through those behind it if it is not repeated among them, and the
-- record of every other device is unchanged; the answer tells whether the record of the source
-- changed.
pub store_route_record_routes :
    (r : Routing) (source : Nwk) (relays : List Nwk)
    → All (λ x. x ≢ source) relays
    → let (s, changed) = store_route_record r source relays in
      (FlatMap.get s.route_record_table source ≡ some relays)
      × ((before : List Nwk) (x : Nwk) (rest : List Nwk)
          → relays ≡ before ++ x ∷ rest
          → All (λ y. y ≢ x) rest
          → FlatMap.get s.route_record_table x ≡ some rest)
      × ((k : Nwk)
          → k ≢ source
          → All (λ x. x ≢ k) relays
          → FlatMap.get s.route_record_table k ≡ FlatMap.get r.route_record_table k)
      × ((changed ≡ true) ↔ (FlatMap.get r.route_record_table source ≢ some relays))
unfolding store_route_record
store_route_record_routes r source relays apart =
    let t = store_suffixes r.route_record_table relays in
    let old = store_suffixes_other r.route_record_table relays source apart in
    let same = holds_relays_iff (FlatMap.get t source) relays in
    (
      get-insert_self t source relays,
      λ before x rest e a.
          get-insert t source x relays
          ∙ ground (
            arith,
            All-middle (λ y. y ≢ source) before x rest (subst (All (λ y. y ≢ source)) e apart),
            subst (λ l. FlatMap.get (store_suffixes r.route_record_table l) x ≡ some rest) (sym e)
                (store_suffixes_suffix r.route_record_table before x rest a),
          ),
      λ k n a.
          get-insert t source k relays
          ∙ ground (arith, n, store_suffixes_other r.route_record_table relays k a),
      (λ c e. ground (arith, same.1 (old ∙ e)), λ n. not_held (λ h. n (sym old ∙ same.0 h))),
    )

-- A source route that a lookup answers with is the stored record of the destination, is not empty
-- and is shorter than the limit.
pub route_to_fits :
    (r : Routing) (destination : Nwk) (longest : ℕ) {relays : List Nwk}
    → route_to r destination longest ≡ ok (some (Route.source_routed relays))
    → (FlatMap.get r.route_record_table destination ≡ some relays)
      × (0 < length relays)
      × (length relays < longest)
unfolding route_to
route_to_fits r destination longest {relays} e =
    elim (Option-cases (FlatMap.get r.route_record_table destination)) [
      | inl none_known ↦
          absurd (ground (arith, none_known, as_route_next (next_hop_of r destination) relays))
      | inr ([], g) ↦ absurd (ground (arith, g))
      | inr (x ∷ xs, g) ↦ ground (arith, g, as_route_next (next_hop_of r destination) relays)
    ]

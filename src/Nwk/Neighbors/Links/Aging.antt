-- ===== src/Nwk/Neighbors/Links/Aging.antt =====
-- The aging of silent links, and the broadcast audience after it.
use ziggurat.Base.{
  ℕ, ◌≡◌, ◌<◌, ◌↔◌, refl, sym, ◌∙◌, ap, Bool, true, false, some, ◌==◌, ◌&&◌, filterb, any, any-map,
  any-filterb, inl, inr, Bool-cases, arith,
}
use ziggurat.Base.Order.{nat_ord}
use ziggurat.Types.{Nwk, Eui64}
use ziggurat.FlatMap
use ziggurat.FlatMap.{FlatMap}
use ziggurat.FlatMap.Sorted.{IsSorted}
use ziggurat.FlatMap.StaysSorted.{update_values-IsSorted}
use ziggurat.FlatMap.Laws.{get-update_values}
use ziggurat.FlatMap.Entries.{any-values, any_of_get}
use ziggurat.Time.{later}
use ziggurat.Nwk.Neighbors.{Neighbors, TableEntry, is_router}
use ziggurat.Nwk.Neighbors.Links.{is_live_router, expected_broadcast_relayers, is_silent, aged, age}
use mathlib.Core.Option

relayer-any :
    (n : Neighbors) (nwk : Nwk)
    → any (λ x. x == nwk) (expected_broadcast_relayers n)
      ≡ any (λ e. is_live_router e && (e.network_address == nwk)) (FlatMap.values n.table)
unfolding expected_broadcast_relayers
relayer-any n nwk =
    any-map (λ e. e.network_address) (λ x. x == nwk)
      (filterb is_live_router (FlatMap.values n.table))
    ∙ any-filterb is_live_router (λ e. e.network_address == nwk) (FlatMap.values n.table)

-- After aging a sorted table, an address is among the expected broadcast relayers exactly if the
-- table had a router entry at that address with a nonzero outgoing cost that was heard within the
-- allowed age.
pub age_relayers :
    (n : Neighbors) (now max_age : ℕ) (nwk : Nwk)
    → IsSorted n.table
    → (any (λ x. x == nwk) (expected_broadcast_relayers (age n now max_age).0) ≡ true) ↔ (
        (k : Eui64) × (e : TableEntry) × (FlatMap.get n.table k ≡ some e)
        × (e.network_address ≡ nwk)
        × (is_router e.device_type ≡ true)
        × (0 < e.outgoing_cost)
        × (now < later e.last_link_status_timestamp max_age))
unfolding age
age_relayers n now max_age nwk s = (to, from)
  where
    test : TableEntry → Bool
    test e = is_live_router e && (e.network_address == nwk)

    m : Neighbors
    m = (age n now max_age).0

    to :
        any (λ x. x == nwk) (expected_broadcast_relayers m) ≡ true
        → (k : Eui64) × (e : TableEntry) × (FlatMap.get n.table k ≡ some e)
          × (e.network_address ≡ nwk)
          × (is_router e.device_type ≡ true)
          × (0 < e.outgoing_cost)
          × (now < later e.last_link_status_timestamp max_age)
    to h =
        let (k, f, g, t) =
          any-values test m.table (update_values-IsSorted (aged now max_age) n.table s)
            (sym (relayer-any m nwk) ∙ h) in
        let (e, ge, same) =
          (Option.map-eq-some_iff (aged now max_age) (FlatMap.get n.table k)).0
            (sym (get-update_values (aged now max_age) n.table k) ∙ g) in
        elim (Bool-cases (is_silent now max_age e)) [
          | inl silent ↦ absurd (ground (arith, silent, same, t))
          | inr speaks ↦
              let kept : f ≡ e = ground (arith, speaks, same) in
              (
                k,
                e,
                ge,
                ground (arith, kept, t),
                ground (arith, kept, t),
                ground (arith, kept, t),
                ground (arith, kept, t, speaks),
              )
        ]

    from :
        (k : Eui64) × (e : TableEntry) × (FlatMap.get n.table k ≡ some e)
          × (e.network_address ≡ nwk)
          × (is_router e.device_type ≡ true)
          × (0 < e.outgoing_cost)
          × (now < later e.last_link_status_timestamp max_age)
        → any (λ x. x == nwk) (expected_broadcast_relayers m) ≡ true
    from (k, e, g, at, router, live, recent) =
        let speaks : is_silent now max_age e ≡ false = ground (arith, recent) in
        let same : aged now max_age e ≡ e = rw speaks refl in
        relayer-any m nwk
        ∙ any_of_get test m.table k e
            (get-update_values (aged now max_age) n.table k ∙ rw g (ap some same))
            (ground (arith, at, router, live))

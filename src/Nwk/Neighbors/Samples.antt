-- ===== src/Nwk/Neighbors/Samples.antt =====
-- Link quality samples: the median, its cost, and the buffers of senders without an entry.
use ziggurat.Base.{
  ℕ, Option-cases, suc, leb, not, ◌&&◌, ◌⊎◌, ◌≡◌, ◌≤◌, ◌<◌, refl, min, max, true, none, some, [],
  ◌∷◌, if◌then◌else◌, ◌==◌, arith, inl, inr, Bool-cases,
}
use ziggurat.Base.Order.{nat_ord}
use ziggurat.Types.{Nwk}
use ziggurat.FlatMap
use ziggurat.FlatMap.{FlatMap}
use ziggurat.FlatMap.Sizes.{len-modify, len-or_insert, len-pop_first}
use ziggurat.RingBuffer.{push, is_full, stored, capacity}
use ziggurat.Nwk.Neighbors.{
  TableEntry, lqa, lqi_to_link_cost, place, sort_unstable, Neighbors, record_lqa, modify_first,
  at_address, sample, LqaSamples, no_samples, pending_lqa_cap, buffer_lqa,
}

-- For an entry with three slots of samples, the link quality is the median of the three when all
-- are filled, and is unknown otherwise.
pub lqa_median :
    (e : TableEntry) (x y z : ℕ)
    → e.lqas.values ≡ x ∷ y ∷ z ∷ []
    → lqa e ≡ (if e.lqas.len == 3 then some (max (min x y) (min (max x y) z)) else none)
unfolding lqa is_full stored capacity sort_unstable place
lqa_median e x y z h = elim (Bool-cases (e.lqas.len == 3)) [
  | inl enough ↦ let three : e.lqas.len ≡ 3 = ground (arith, enough) in rw (three, h) (ground arith)
  | inr few ↦ rw (h, few) refl
]

-- A link cost is between 1 and 7, and a higher link quality never costs more.
pub lqi_to_link_cost_bounds :
    (a b : ℕ)
    → a ≤ b
    → (1 ≤ lqi_to_link_cost b)
      × (lqi_to_link_cost b ≤ lqi_to_link_cost a)
      × (lqi_to_link_cost a ≤ 7)
lqi_to_link_cost_bounds a b h = ground arith

pub len-buffer_lqa :
    (pending : FlatMap Nwk LqaSamples) (sender : Nwk) (lqi : ℕ)
    → FlatMap.len pending ≤ pending_lqa_cap
    → FlatMap.len (buffer_lqa pending sender lqi) ≤ pending_lqa_cap
unfolding buffer_lqa
len-buffer_lqa pending sender lqi h =
    elim (Bool-cases
      (leb pending_lqa_cap (FlatMap.len pending) && not (FlatMap.contains_key pending sender))) [
        | inl full ↦ rw full (
            omega (
              arith,
              len-modify (FlatMap.or_insert (FlatMap.pop_first pending).0 sender no_samples).0
                  sender (λ r. push r lqi),
              most (FlatMap.pop_first pending).0,
              len-pop_first pending,
            ))
        | inr room ↦ rw room (
            omega (
              arith,
              len-modify (FlatMap.or_insert pending sender no_samples).0 sender (λ r. push r lqi),
              fits (ground (arith, room)),
            ))
      ]
  where
    most :
        (m : FlatMap Nwk LqaSamples)
        → FlatMap.len (FlatMap.or_insert m sender no_samples).0 ≤ suc (FlatMap.len m)
    most m = ground (arith, len-or_insert m sender no_samples)

    fits :
        ((FlatMap.len pending < pending_lqa_cap) ⊎ (FlatMap.contains_key pending sender ≡ true))
        → FlatMap.len (FlatMap.or_insert pending sender no_samples).0 ≤ pending_lqa_cap
    fits c = ground (arith, len-or_insert pending sender no_samples)

pub record_lqa-pending :
    (n : Neighbors) (sender : Nwk) (lqi : ℕ)
    → FlatMap.len n.pending_lqas ≤ pending_lqa_cap
    → FlatMap.len (record_lqa n sender lqi).pending_lqas ≤ pending_lqa_cap
unfolding record_lqa
record_lqa-pending n sender lqi h =
    elim (Option-cases (modify_first (at_address sender) (sample lqi) n.table.entries)) [
      | inl missing ↦ rw (record_lqa, missing) (len-buffer_lqa n.pending_lqas sender lqi h)
      | inr (es, known) ↦ rw (record_lqa, known) h
    ]

-- ===== src/Nwk/Addresses/Client.antt =====
-- What a learned mapping reports, and which addresses are handed out.
use ziggurat.FlatMap.Entries.{any-values}
use ziggurat.Base.{find, All, All-map, find-none, refl, ◌∷◌, []}
use ziggurat.Base.{
  ◌≡◌, any-false, ◌≢◌, ◌↔◌, any-find, find-some, find-none, ◌<◌, Bool, true, false, not, none, some,
  List, if◌then◌else◌, ◌==◌, ◌&&◌, any, find, arith, inl, inr, Option-cases, Bool-cases, ◌⊎◌,
}
use ziggurat.Nwk.Neighbors.{Neighbors, has_network_address}
use ziggurat.Types.{Nwk, Eui64}
use ziggurat.Base.Order.{nat_ord}
use ziggurat.FlatMap
use ziggurat.FlatMap.{FlatMap}
use ziggurat.FlatMap.Laws.{get-insert}
use ziggurat.FlatMap.Entries.{All-values, All-get, get_found}
use ziggurat.Nwk.Addresses.{
  AddressMap, eui64_for, nwk_for, claimed_by_other, update_mapping, maps_to, is_unused,
  generate_unused, allocate,
}
use ziggurat.Nwk.Addresses.Owner.{IsValid}

-- `nwk` is in use by us or by a device other than `eui64`.
abbrev pub TakenFrom : AddressMap → Eui64 → Nwk → Type 0
TakenFrom a eui64 nwk =
    (nwk ≡ a.own_address) ⊎ ((other : Eui64) × (nwk_for a other ≡ some nwk) × (other ≢ eui64))

-- In a valid address map, learning a mapping reports a conflict exactly if the mapping is not
-- known yet and the network address is ours or that of another device.
pub update_mapping_conflict :
    (a : AddressMap) (eui64 : Eui64) (nwk : Nwk)
    → IsValid a
    → ((update_mapping a eui64 nwk).1 ≡ true)
      ↔ ((nwk_for a eui64 ≢ some nwk) × TakenFrom a eui64 nwk)
unfolding update_mapping claimed_by_other nwk_for maps_to
update_mapping_conflict a eui64 nwk v = (conflict→, →conflict)
  where
    others : Eui64 × Nwk → Bool
    others e = (e.1 == nwk) && not (e.0 == eui64)

    conflict→ :
        (update_mapping a eui64 nwk).1 ≡ true → (nwk_for a eui64 ≢ some nwk) × TakenFrom a eui64 nwk
    conflict→ e = elim (Bool-cases (any others a.map.entries)) [
      | inl some_other ↦
          let ((other, n), h) = any-find others a.map.entries some_other in
          let g = get_found others a.map v.sorted h in
          let t = find-some others a.map.entries h in
          (ground arith, inr (other, ground (arith, g, t), ground (arith, g, t)))
      | inr nobody ↦ (ground arith, inl (ground (arith, nobody)))
    ]

    →conflict :
        (nwk_for a eui64 ≢ some nwk) × TakenFrom a eui64 nwk → (update_mapping a eui64 nwk).1 ≡ true
    →conflict (new, inl own) = ground arith
    →conflict (new, inr (other, g, apart)) = elim (Bool-cases (any others a.map.entries)) [
      | inl some_other ↦ ground (arith, some_other)
      | inr nobody ↦ absurd (
          ground (
            arith,
            apart,
            All-get (λ x. others x ≡ false) a.map other nwk (any-false others a.map.entries nobody)
                g,
          ))
    ]

pub update_mapping_learns :
    (a : AddressMap) (eui64 : Eui64) (nwk : Nwk)
    → IsValid a
    → (e : Eui64)
    → nwk_for (update_mapping a eui64 nwk).0 e ≡ (
        if (update_mapping a eui64 nwk).1
        then nwk_for a e
        else (if eui64 == e then some nwk else nwk_for a e))
unfolding update_mapping nwk_for maps_to
update_mapping_learns a eui64 nwk v e = ground (arith, get-insert a.map eui64 e nwk)

-- In a valid address map the reverse lookup of a network address gives a device exactly if the
-- device maps to that address.
pub eui64_for_iff :
    (a : AddressMap) (nwk : Nwk) (eui64 : Eui64)
    → IsValid a
    → (eui64_for a nwk ≡ some eui64) ↔ (nwk_for a eui64 ≡ some nwk)
unfolding eui64_for nwk_for
eui64_for_iff a nwk eui64 v = elim (Option-cases (find holds a.map.entries)) [
  | inl missing ↦ (
    λ e. absurd (ground (arith, missing)),
    λ g. absurd (
        ground (
          arith,
          All-get (λ x. holds x ≡ false) a.map eui64 nwk (find-none holds a.map.entries missing) g,
        )),
  )
  | inr ((owner, n), h) ↦
      let g = get_found holds a.map v.sorted h in
      let t = find-some holds a.map.entries h in
      (λ e. ground (arith, g, t, h), λ k. ground (arith, h, g, t, v.single owner eui64 nwk))
]
  where
    holds : Eui64 × Nwk → Bool
    holds e = e.1 == nwk

-- What makes a fresh address good.
pub record IsFree (a : AddressMap) (neighbors : Neighbors) (nwk : Nwk) : Type 0 where
  pub above_coordinator : 0 < nwk
  pub below_reserved : nwk < 0xFFF8
  pub not_ours : nwk ≢ a.own_address
  pub not_mapped : (e : Eui64) → nwk_for a e ≢ some nwk
  pub not_neighbor : has_network_address neighbors nwk ≡ false

is_unused-IsFree :
    (a : AddressMap) (neighbors : Neighbors) (nwk : Nwk)
    → is_unused a neighbors nwk ≡ true
    → IsFree a neighbors nwk
unfolding is_unused nwk_for
is_unused-IsFree a neighbors nwk u = record {
  above_coordinator = ground arith;
  below_reserved = ground arith;
  not_ours = ground arith;
  not_mapped = λ e g. ground (
    arith,
    All-values (λ n. n == nwk ≡ false) a.map e nwk
        (any-false (λ n. n == nwk) (FlatMap.values a.map) (ground arith)) g,
  );
  not_neighbor = ground arith;
}

-- An allocated address is the one the device is known under, or the device is unknown and the
-- address is above 0, below 0xFFF8, not ours, not mapped by any device and not that of a neighbor.
pub allocate_cases :
    (a : AddressMap) (eui64 : Eui64) (neighbors : Neighbors) (candidates : List Nwk) {nwk : Nwk}
    → allocate a eui64 neighbors candidates ≡ some nwk
    → (nwk_for a eui64 ≡ some nwk) ⊎ ((nwk_for a eui64 ≡ none) × IsFree a neighbors nwk)
unfolding allocate generate_unused
allocate_cases a eui64 neighbors candidates {nwk} e = elim (Option-cases (nwk_for a eui64)) [
  | inl new ↦ inr (
    new,
    is_unused-IsFree a neighbors nwk
        (find-some (is_unused a neighbors) candidates (ground (arith, new))),
  )
  | inr (old, known) ↦ inl (ground (arith, known))
]

IsFree-is_unused :
    (a : AddressMap) (neighbors : Neighbors) (nwk : Nwk)
    → IsValid a
    → IsFree a neighbors nwk
    → is_unused a neighbors nwk ≡ true
unfolding is_unused nwk_for
IsFree-is_unused a neighbors nwk v f =
    elim (Bool-cases (any (λ n. n == nwk) (FlatMap.values a.map))) [
      | inl mapped ↦
          let (e, n, g, same) = any-values (λ n. n == nwk) a.map v.sorted mapped in
          absurd (f.not_mapped e (ground (arith, g, same)))
      | inr unmapped ↦
          ground
            (arith, unmapped, f.above_coordinator, f.below_reserved, f.not_ours, f.not_neighbor)
    ]

find_nothing : (p : Nwk → Bool) (xs : List Nwk) → All (λ x. p x ≡ false) xs → find p xs ≡ none
find_nothing p [] h = refl
find_nothing p (x ∷ xs) h = rw h.0 (find_nothing p xs h.1)

-- In a valid address map the allocation panics exactly if the device is unknown and no candidate
-- is free: above 0, below 0xFFF8, not ours, not mapped by any device and not that of a neighbor.
pub allocate-none :
    (a : AddressMap) (eui64 : Eui64) (neighbors : Neighbors) (candidates : List Nwk)
    → IsValid a
    → (allocate a eui64 neighbors candidates ≡ none)
      ↔ ((nwk_for a eui64 ≡ none) × All (λ c. ¬ IsFree a neighbors c) candidates)
unfolding allocate generate_unused
allocate-none a eui64 neighbors candidates v = elim (Option-cases (nwk_for a eui64)) [
  | inl new ↦ (
    λ e. (
      new,
      All-map (λ c u f. ground (arith, u, IsFree-is_unused a neighbors c v f)) candidates
          (find-none (is_unused a neighbors) candidates (ground (arith, new, e))),
    ),
    λ h.
        rw (new, allocate)
          (find_nothing (is_unused a neighbors) candidates
            (All-map (λ c n. unfree c n) candidates h.1)),
  )
  | inr (old, known) ↦
      (λ e. absurd (ground (arith, known, e)), λ h. absurd (ground (arith, known, h.0)))
]
  where
    unfree : (c : Nwk) → ¬ IsFree a neighbors c → is_unused a neighbors c ≡ false
    unfree c n = elim (Bool-cases (is_unused a neighbors c)) [
      | inl free ↦ absurd (n (is_unused-IsFree a neighbors c free))
      | inr taken ↦ taken
    ]

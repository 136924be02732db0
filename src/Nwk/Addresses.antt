-- ===== src/Nwk/Addresses.antt =====
-- crates/ziggurat-zigbee/src/nwk/addresses.rs: the map from extended to network addresses.
pub mod Owner
pub mod Client
use ziggurat.Base.{
  ℕ, ◌≡◌, Bool, true, false, not, Option, none, some, List, [], ◌∷◌, if◌then◌else◌, ◌==◌, ltb, ◌&&◌,
  ◌||◌, any, find, filterb,
}
use ziggurat.Nwk.Neighbors.{Neighbors, has_network_address}
use ziggurat.Types.{Nwk, Eui64}
use ziggurat.Base.Order.{nat_ord}
use ziggurat.FlatMap
use ziggurat.FlatMap.{FlatMap}
use mathlib.Core.Option

pub record AddressMap : Type 0 where
  pub own_address : Nwk
  pub map : FlatMap Eui64 Nwk

unfoldable pub new : Nwk → Eui64 → AddressMap
new own_address own_eui64 = record {
  own_address = own_address;
  map = (FlatMap.insert FlatMap.new own_eui64 own_address).0;
}

unfoldable pub nwk_for : AddressMap → Eui64 → Option Nwk
nwk_for a eui64 = FlatMap.get a.map eui64

unfoldable pub eui64_for : AddressMap → Nwk → Option Eui64
eui64_for a nwk = Option.map (λ e. e.0) (find (λ e. e.1 == nwk) a.map.entries)

-- What the client persists.
pub entries : AddressMap → List (Eui64 × Nwk)
entries a = filterb (λ e. not (e.1 == a.own_address)) a.map.entries

unfoldable pub claimed_by_other : AddressMap → Nwk → Eui64 → Bool
claimed_by_other a nwk eui64 =
    (nwk == a.own_address) || any (λ e. (e.1 == nwk) && not (e.0 == eui64)) a.map.entries

-- `self.map.get(&eui64) == Some(&nwk)`.
pub maps_to : Option Nwk → Nwk → Bool
maps_to none nwk = false
maps_to (some other) nwk = other == nwk

-- The Boolean tells of an address conflict.
unfoldable pub update_mapping : AddressMap → Eui64 → Nwk → AddressMap × Bool
unfolding maps_to
update_mapping a eui64 nwk =
    if maps_to (FlatMap.get a.map eui64) nwk
    then (a, false)
    else (if claimed_by_other a nwk eui64
        then (a, true)
        else (record a { map = (FlatMap.insert a.map eui64 nwk).0 }, false))

unfoldable pub evict_other_owners : AddressMap → Nwk → Eui64 → AddressMap
evict_other_owners a nwk owner = record a {
  map =
      FlatMap.retain (λ eui64 mapped. (mapped, not ((mapped == nwk) && not (eui64 == owner))))
        a.map;
}

unfoldable pub claim : AddressMap → Eui64 → Nwk → AddressMap
unfolding evict_other_owners
claim a eui64 nwk =
    let evicted = evict_other_owners a nwk eui64 in
    record evicted { map = (FlatMap.insert evicted.map eui64 nwk).0 }

pub forget_address : AddressMap → Nwk → AddressMap
forget_address a nwk = record a {
  map = FlatMap.retain (λ _ mapped. (mapped, not (mapped == nwk))) a.map;
}

-- The test of `generate_unused`.
unfoldable pub is_unused : AddressMap → Neighbors → Nwk → Bool
is_unused a neighbors candidate =
    not (candidate == 0)
    && ltb candidate 0xFFF8
    && not (candidate == a.own_address)
    && not (any (λ nwk. nwk == candidate) (FlatMap.values a.map))
    && not (has_network_address neighbors candidate)

-- The candidates are the caller's; `none`: the stream ended, where `expect` panics.
unfoldable pub generate_unused : AddressMap → Neighbors → List Nwk → Option Nwk
generate_unused a neighbors candidates = find (is_unused a neighbors) candidates

unfoldable pub allocate : AddressMap → Eui64 → Neighbors → List Nwk → Option Nwk
allocate a eui64 neighbors candidates = elim (nwk_for a eui64) [
  | some nwk ↦ some nwk
  | none ↦ generate_unused a neighbors candidates
]

-- ===== src/Nwk/Addresses/Owner.antt =====
-- A network address has a single owner, whatever the operations.
use mathlib.Core.Option
use ziggurat.Base.{
  ◌≡◌, any-false, false, not, none, some, if◌then◌else◌, ◌==◌, ◌&&◌, arith, inl, inr, Bool-cases,
}
use ziggurat.Types.{Nwk, Eui64}
use ziggurat.Base.Order.{nat_ord}
use ziggurat.FlatMap
use ziggurat.FlatMap.{FlatMap}
use ziggurat.FlatMap.Sorted.{IsSorted}
use ziggurat.FlatMap.StaysSorted.{insert-IsSorted, retain-IsSorted, new-IsSorted}
use ziggurat.FlatMap.Laws.{get-insert, get-retain, get-new}
use ziggurat.FlatMap.Entries.{All-get}
use ziggurat.Nwk.Addresses.{
  AddressMap, new, nwk_for, claimed_by_other, update_mapping, evict_other_owners, claim,
  forget_address, maps_to,
}

-- No two extended addresses map to one network address.
abbrev pub SingleOwner : FlatMap Eui64 Nwk → Type 0
SingleOwner m =
    (e f : Eui64) (n : Nwk) → FlatMap.get m e ≡ some n → FlatMap.get m f ≡ some n → e ≡ f

pub record IsValid (a : AddressMap) : Type 0 where
  pub sorted : IsSorted a.map
  pub single : SingleOwner a.map

pub new-IsValid : (own : Nwk) (eui64 : Eui64) → IsValid (new own eui64)
unfolding new
new-IsValid own eui64 = record {
  sorted = insert-IsSorted FlatMap.new eui64 own (new-IsSorted Eui64 Nwk);
  single = λ e f n he hf. ground (
    arith,
    get-insert FlatMap.new eui64 e own,
    get-insert FlatMap.new eui64 f own,
    get-new {V = Nwk} e,
    get-new {V = Nwk} f,
  );
}

-- Nobody else maps to an address that is not claimed.
pub unclaimed :
    (a : AddressMap) (nwk : Nwk) (eui64 : Eui64)
    → claimed_by_other a nwk eui64 ≡ false
    → (e : Eui64) → FlatMap.get a.map e ≡ some nwk
    → e ≡ eui64
unfolding claimed_by_other
unclaimed a nwk eui64 h e g = ground (
  arith,
  All-get (λ x. (x.1 == nwk) && not (x.0 == eui64) ≡ false) a.map e nwk
      (any-false (λ x. (x.1 == nwk) && not (x.0 == eui64)) a.map.entries (ground arith)) g,
)

-- An entry stored for an address that nobody else maps to keeps the owners single.
insert-SingleOwner :
    (m : FlatMap Eui64 Nwk) (eui64 : Eui64) (nwk : Nwk)
    → ((e : Eui64) → FlatMap.get m e ≡ some nwk → e ≡ eui64)
    → SingleOwner m
    → SingleOwner (FlatMap.insert m eui64 nwk).0
insert-SingleOwner m eui64 nwk alone s e f n he hf =
    ground (arith, get-insert m eui64 e nwk, get-insert m eui64 f nwk, alone e, alone f, s e f n)

-- Learning a mapping keeps a valid address map valid: sorted, with no network address mapped by
-- two devices.
pub update_mapping-IsValid :
    (a : AddressMap) (eui64 : Eui64) (nwk : Nwk)
    → IsValid a
    → IsValid (update_mapping a eui64 nwk).0
unfolding update_mapping
update_mapping-IsValid a eui64 nwk v = elim (Bool-cases (maps_to (FlatMap.get a.map eui64) nwk)) [
  | inl known ↦ rw known v
  | inr fresh ↦ elim (Bool-cases (claimed_by_other a nwk eui64)) [
    | inl taken ↦ rw (fresh, taken) v
    | inr free ↦
        rw (fresh, free)
          (record {
            sorted = insert-IsSorted a.map eui64 nwk v.sorted;
            single = insert-SingleOwner a.map eui64 nwk (unclaimed a nwk eui64 free) v.single;
          })
  ]
]

evict :
    (a : AddressMap) (nwk : Nwk) (owner e : Eui64)
    → IsSorted a.map
    → FlatMap.get (evict_other_owners a nwk owner).map e
      ≡ Option.bind
          (FlatMap.get a.map e)
          (λ mapped. if (mapped == nwk) && not (e == owner) then none else some mapped)
unfolding evict_other_owners Option.bind
evict a nwk owner e s = ground (
  arith,
  get-retain (λ eui64 mapped. (mapped, not ((mapped == nwk) && not (eui64 == owner)))) a.map e s,
)

evict-IsSorted :
    (a : AddressMap) (nwk : Nwk) (owner : Eui64)
    → IsSorted a.map
    → IsSorted (evict_other_owners a nwk owner).map
unfolding evict_other_owners
evict-IsSorted a nwk owner s =
    retain-IsSorted (λ eui64 mapped. (mapped, not ((mapped == nwk) && not (eui64 == owner)))) a.map
      s

-- After a claim in a valid address map, the claimant maps to the address, a device that mapped to
-- it maps to none, and every other device keeps its mapping.
pub get-claim :
    (a : AddressMap) (eui64 e : Eui64) (nwk : Nwk)
    → IsValid a
    → nwk_for (claim a eui64 nwk) e ≡ (
        if eui64 == e
        then some nwk
        else Option.bind (nwk_for a e) (λ mapped. if mapped == nwk then none else some mapped))
unfolding claim nwk_for Option.bind
get-claim a eui64 e nwk v = ground (
  arith,
  get-insert (evict_other_owners a nwk eui64).map eui64 e nwk,
  evict a nwk eui64 e v.sorted,
)

-- Keeping the entries of a map keeps the owners single.
SingleOwner-sub :
    (m n : FlatMap Eui64 Nwk)
    → ((e : Eui64) (w : Nwk) → FlatMap.get n e ≡ some w → FlatMap.get m e ≡ some w)
    → SingleOwner m
    → SingleOwner n
SingleOwner-sub m n sub s e f w he hf = s e f w (sub e w he) (sub f w hf)

-- A claim keeps a valid address map valid: sorted, with no network address mapped by two devices.
pub claim-IsValid :
    (a : AddressMap) (eui64 : Eui64) (nwk : Nwk) → IsValid a → IsValid (claim a eui64 nwk)
unfolding claim Option.bind
claim-IsValid a eui64 nwk v = record {
  sorted =
      insert-IsSorted (evict_other_owners a nwk eui64).map eui64 nwk
        (evict-IsSorted a nwk eui64 v.sorted);
  single =
      insert-SingleOwner (evict_other_owners a nwk eui64).map eui64 nwk
        (λ e h. ground (arith, evict a nwk eui64 e v.sorted))
        (SingleOwner-sub a.map (evict_other_owners a nwk eui64).map
          (λ e w h. ground (arith, evict a nwk eui64 e v.sorted)) v.single);
}

pub get-forget_address :
    (a : AddressMap) (nwk : Nwk) (e : Eui64)
    → IsValid a
    → nwk_for (forget_address a nwk) e
      ≡ Option.bind (nwk_for a e) (λ mapped. if mapped == nwk then none else some mapped)
unfolding forget_address nwk_for Option.bind
get-forget_address a nwk e v =
    ground (arith, get-retain (λ _ mapped. (mapped, not (mapped == nwk))) a.map e v.sorted)

pub forget_address-IsValid :
    (a : AddressMap) (nwk : Nwk) → IsValid a → IsValid (forget_address a nwk)
unfolding forget_address nwk_for Option.bind
forget_address-IsValid a nwk v = record {
  sorted = retain-IsSorted (λ _ mapped. (mapped, not (mapped == nwk))) a.map v.sorted;
  single =
      SingleOwner-sub a.map (forget_address a nwk).map
        (λ e w h. ground (arith, get-forget_address a nwk e v)) v.single;
}

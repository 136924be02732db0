-- ===== src/Tests/Tables.antt =====
-- Inputs for the theorems on the map, the ring buffer and the address map.
use ziggurat.Base.{ℕ, ◌≡◌, ◌↔◌, refl, some, [], ◌∷◌, ◌++◌, if◌then◌else◌, arith, tail}
use ziggurat.Base.Order.{nat_ord}
use ziggurat.FlatMap
use ziggurat.Nwk.Neighbors
use ziggurat.Nwk.Neighbors.{Neighbors}
use ziggurat.FlatMap.{FlatMap}
use ziggurat.RingBuffer
use ziggurat.RingBuffer.{RingBuffer, push, is_full, is_empty, capacity, stored}
use ziggurat.RingBuffer.Window
use ziggurat.RingBuffer.Window.{window, window-push, new-IsValid, push-IsValid}
use ziggurat.Nwk.Addresses
use ziggurat.Nwk.Addresses.{
  AddressMap, nwk_for, eui64_for, update_mapping, claim, allocate, forget_address,
}
use ziggurat.Nwk.Addresses.Owner
use ziggurat.Nwk.Addresses.Owner.{SingleOwner, get-claim, claim-IsValid, update_mapping-IsValid}
use ziggurat.Nwk.Addresses.Client.{eui64_for_iff}

abbrev two : FlatMap ℕ ℕ
two = (FlatMap.insert (FlatMap.insert FlatMap.new 7 70).0 3 30).0

abbrev ring : RingBuffer ℕ
ring = push (RingBuffer.new 3 0) 8

ring-IsValid : Window.IsValid ring
unfolding RingBuffer.new push capacity
ring-IsValid =
    push-IsValid (RingBuffer.new 3 0) 8 (omega arith) (new-IsValid 3 0 (omega arith) (omega arith))

window-push_example :
    window (push ring 9) ≡ (if is_full ring then tail (window ring) else window ring) ++ 9 ∷ []
unfolding RingBuffer.new push capacity
window-push_example = window-push ring 9 (omega arith) ring-IsValid

abbrev peers : AddressMap
peers = claim (Addresses.new 1 100) 200 2

peers-IsValid : Owner.IsValid peers
peers-IsValid = claim-IsValid (Addresses.new 1 100) 200 2 (Owner.new-IsValid 1 100)

update_mapping-IsValid_example : Owner.IsValid (update_mapping peers 300 2).0
update_mapping-IsValid_example = update_mapping-IsValid peers 300 2 peers-IsValid

eui64_for_iff_example : (eui64_for peers 2 ≡ some 200) ↔ (nwk_for peers 200 ≡ some 2)
eui64_for_iff_example = eui64_for_iff peers 2 200 peers-IsValid

abbrev alone : Neighbors
alone = record { table = FlatMap.new; pending_lqas = FlatMap.new }

picks : allocate peers 300 alone (0 ∷ 2 ∷ 5 ∷ []) ≡ some 5
unfolding Neighbors.has_network_address allocate Addresses.generate_unused Addresses.is_unused claim
    Addresses.evict_other_owners Addresses.new nwk_for FlatMap.get FlatMap.index_of FlatMap.search
    FlatMap.insert FlatMap.new FlatMap.shift FlatMap.retain FlatMap.retain_mut FlatMap.values
picks = refl

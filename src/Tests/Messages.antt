-- ===== src/Tests/Messages.antt =====
-- Inputs for the theorems on broadcasts.
use ziggurat.Base.{ℕ, ◌≡◌, refl, true, [], ◌∷◌, arith, All}
use ziggurat.Base.Order.{nat_ord, pair_ord}
use ziggurat.Types.{Nwk}
use ziggurat.FlatMap
use ziggurat.FlatMap.{FlatMap}
use ziggurat.FlatMap.StaysSorted.{new-IsSorted, insert-IsSorted}
use ziggurat.FlatMap.Everywhere.{get-insert_self}
use ziggurat.Time.{later}
use ziggurat.Nwk.Broadcasts
use ziggurat.Nwk.Broadcasts.{Transaction, Broadcasts, contains, passively_acked, fresh_transaction}
use ziggurat.Nwk.Broadcasts.Dedup.{Copy, receive, receive_all, key_of, processed_once}
use ziggurat.Nwk.Broadcasts.Acks.{relayed-acked}

abbrev copy : ℕ → Nwk → ℕ → Copy
copy seq sender now = record {
  source = 5;
  sequence_number = seq;
  sender = sender;
  audience = 20 ∷ 30 ∷ [];
  now = now;
  delivery_time = 100;
}

processed_once_example :
    All
      (λ a. key_of a.0 ≡ (5, 1) → a.1 ≡ true)
      (receive_all (receive FlatMap.new (copy 1 20 10)).0 (copy 2 30 11 ∷ copy 1 30 12 ∷ [])).1
unfolding later Broadcasts.filter_received FlatMap.get FlatMap.index_of FlatMap.search FlatMap.new
    FlatMap.retain FlatMap.retain_mut
processed_once_example =
    processed_once FlatMap.new (copy 1 20 10) (copy 2 30 11 ∷ copy 1 30 12 ∷ [])
      (new-IsSorted (Nwk × ℕ) Transaction) refl (ground arith)

abbrev transaction : Transaction
transaction = fresh_transaction 20 (20 ∷ 30 ∷ []) 10 100

abbrev heard_once : Broadcasts
heard_once = (FlatMap.insert FlatMap.new (5, 1) transaction).0

relayed-acked_example :
    passively_acked
      (receive_all heard_once (copy 1 20 11 ∷ copy 1 30 12 ∷ [])).0
      5
      1
      (20 ∷ 30 ∷ [])
      2
    ≡ true
unfolding later
relayed-acked_example =
    relayed-acked heard_once (copy 1 20 11 ∷ copy 1 30 12 ∷ []) 5 1 transaction (20 ∷ 30 ∷ []) 2
      (insert-IsSorted FlatMap.new (5, 1) transaction (new-IsSorted (Nwk × ℕ) Transaction))
      (get-insert_self FlatMap.new (5, 1) transaction) (ground arith) (ground arith)

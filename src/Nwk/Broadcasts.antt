-- ===== src/Nwk/Broadcasts.antt =====
-- crates/ziggurat-zigbee/src/nwk/broadcasts.rs: the broadcast transaction table.
pub mod Dedup
pub mod Receipts
pub mod Acks
use ziggurat.Base.{
  ℕ, ◌≡◌, Bool, true, false, not, Option, none, some, List, [], ◌∷◌, if◌then◌else◌, ◌==◌, ltb, leb,
  min, any, filterb, length,
}
use ziggurat.Types.{Nwk, Eui64}
use ziggurat.Base.Order.{nat_ord, pair_ord}
use ziggurat.FlatMap
use ziggurat.FlatMap.{FlatMap}
use ziggurat.FlatMap.Set
use ziggurat.FlatMap.Set.{FlatSet}
use ziggurat.Time.{later}

pub record Transaction : Type 0 where
  pub expiration_time : ℕ
  pub expected_relayers : List Nwk
  pub heard_from : FlatSet Nwk

-- Keyed by the source and the sequence number.
abbrev pub Broadcasts : Type 0
Broadcasts = FlatMap (Nwk × ℕ) Transaction

abbrev pub hear : Nwk → Transaction → Transaction
hear sender t = record t { heard_from = (Set.insert t.heard_from sender).0 }

-- `self.table.retain(|_, entry| entry.expiration_time > now)`.
abbrev pub expire : Broadcasts → ℕ → Broadcasts
expire table now = FlatMap.retain (λ _ t. (t, ltb now t.expiration_time)) table

-- The transaction of a broadcast heard for the first time: whoever delivered it has relayed it.
abbrev pub fresh_transaction : Nwk → List Nwk → ℕ → ℕ → Transaction
fresh_transaction sender audience now delivery_time = record {
  expiration_time = later now delivery_time;
  expected_relayers = audience;
  heard_from = (Set.insert Set.empty sender).0;
}

-- The Boolean tells of a known transaction: the frame is a duplicate.
unfoldable pub filter_received : Broadcasts → Nwk → ℕ → Nwk → List Nwk → ℕ → ℕ → Broadcasts × Bool
filter_received table source sequence_number sender audience now delivery_time =
    let live = expire table now in
    elim (FlatMap.get live (source, sequence_number)) [
      | some _ ↦ (FlatMap.modify live (source, sequence_number) (hear sender), true)
      | none ↦ (
        (FlatMap.insert live (source, sequence_number)
            (fresh_transaction sender audience now delivery_time)).0,
        false,
      )
    ]

unfoldable pub record_transmission : Broadcasts → Nwk → ℕ → List Nwk → ℕ → ℕ → Broadcasts
record_transmission table source sequence_number audience now delivery_time =
    (FlatMap.insert table (source, sequence_number)
      (record {
        expiration_time = later now delivery_time;
        expected_relayers = audience;
        heard_from = Set.empty;
      })).0

-- `slice.contains`.
abbrev pub contains : List Nwk → Nwk → Bool
contains xs n = any (λ x. x == n) xs

unfoldable pub quorum_heard : Transaction → List Nwk → ℕ → Bool
quorum_heard t live_relayers quorum =
    let audience = filterb (contains live_relayers) t.expected_relayers in
    let heard = length (filterb (Set.contains t.heard_from) audience) in
    leb (min (length audience) quorum) heard

unfoldable pub passively_acked : Broadcasts → Nwk → ℕ → List Nwk → ℕ → Bool
passively_acked table source sequence_number live_relayers quorum =
    elim (FlatMap.get table (source, sequence_number)) [
      | none ↦ true
      | some t ↦ quorum_heard t live_relayers quorum
    ]

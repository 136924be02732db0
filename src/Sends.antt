-- ===== src/Sends.antt =====
-- crates/ziggurat-zigbee/src/sends/mod.rs: the types that the send tables share. The frame type `F`,
-- the waiter type `W` and the driver's error type `E` are parameters, as in the code, and `from`
-- stands for the `From<SendFailure>` of `E`. A panic is `none`. `Sends` is in `Front` and `Settling`.
pub mod UnicastRecord
pub mod BroadcastRecord
pub mod Unicasts
pub mod Broadcasts
pub mod Unrouted
pub mod Front
pub mod Settling
pub mod Ledger
pub mod Sweep
pub mod World
pub mod Waking
pub mod Candidates
pub mod Deadlines
pub mod Order
use mathlib.Core.Option
use ziggurat.Base.{
  ℕ, ◌≡◌, ◌+◌, ◌*◌, Bool, true, false, ◌&&◌, ◌||◌, Option, none, some, List, [], ◌∷◌, ◌++◌,
  if◌then◌else◌, Result, ok, err, ltb, leb, ◌==◌,
}
use ziggurat.Base.Order.{nat_ord}
use ziggurat.Types.{Nwk, Eui64}
use ziggurat.FlatMap.Set.{FlatSet}
use ziggurat.FlatMap.Set

-- `Option<T> == Option<T>`.
abbrev pub option_eq : Option ℕ → Option ℕ → Bool
option_eq none none = true
option_eq (some a) (some b) = a == b
option_eq _ _ = false

-- `Ieee802154Address` of crates/ziggurat-ieee-802154/src/lib.rs, with its equality.
pub data Address : Type 0 where
  short : Nwk → Address
  extended : Eui64 → Address

abbrev pub address_eq : Address → Address → Bool
address_eq (Address.short a) (Address.short b) = a == b
address_eq (Address.extended a) (Address.extended b) = a == b
address_eq _ _ = false

pub data TxPriority : Type 0 where
  background user_low user_normal user_high user_critical stack_critical : TxPriority

-- The derived order is that of the declaration.
abbrev pub rank : TxPriority → ℕ
rank TxPriority.background = 0
rank TxPriority.user_low = 1
rank TxPriority.user_normal = 2
rank TxPriority.user_high = 3
rank TxPriority.user_critical = 4
rank TxPriority.stack_critical = 5

-- The argument is the byte of the `i8`: from 128 on it is negative.
pub from_host : ℕ → TxPriority
from_host value =
    if leb 128 value && leb value 254
    then TxPriority.background
    else if value == 255
    then TxPriority.user_low
    else if value == 0
    then TxPriority.user_normal
    else if value == 1
    then TxPriority.user_high
    else TxPriority.user_critical

pub record ApsAckData : Type 0 where
  pub src : Nwk
  pub destination_endpoint : Option ℕ
  pub cluster_id : Option ℕ
  pub profile_id : Option ℕ
  pub source_endpoint : Option ℕ
  pub counter : ℕ

abbrev pub ack_eq : ApsAckData → ApsAckData → Bool
ack_eq a b =
    a.src == b.src
    && option_eq a.destination_endpoint b.destination_endpoint
    && option_eq a.cluster_id b.cluster_id
    && option_eq a.profile_id b.profile_id
    && option_eq a.source_endpoint b.source_endpoint
    && a.counter == b.counter

pub data SendFailure : Type 0 where
  handoff_timeout aps_ack_timeout : SendFailure
  indirect_expired : Address → SendFailure
  route_discovery_timeout broadcast_quorum_not_reached cancelled : SendFailure

pub data Confirm : Type 0 where
  on_handoff : Confirm
  aps_ack : ApsAckData → ℕ → Confirm

pub data Transmit : Type 0 where
  unicast : Nwk → Bool → Transmit
  broadcast : Transmit

pub record InFlight (F : Type 0) : Type 0 where
  pub id : ℕ
  pub frame : F
  pub transmit : Transmit

-- A write through `InFlight::frame_mut`.
abbrev pub frame_mut : {F : Type 0} → InFlight F → F → InFlight F
frame_mut l frame = record l { frame = frame }

-- `Result<(), E>`.
abbrev pub Verdict : Type 0 → Type 0
Verdict E = Result (Unit {0}) E

pub data Action (F W E : Type 0) : Type 0 where
  handed_off : W → Action F W E
  settled : W → Verdict E → F → Option Nwk → Action F W E

-- `SrcMatchTable`.
pub record SrcMatchTable : Type 0 where
  pub short_addresses : FlatSet Nwk
  pub extended_addresses : FlatSet Eui64

pub contains : SrcMatchTable → Address → Bool
contains t (Address.short nwk) = Set.contains t.short_addresses nwk
contains t (Address.extended eui64) = Set.contains t.extended_addresses eui64

-- The parameters of `Tunables` that the tables read.
pub record Tunables : Type 0 where
  pub transaction_persistence_time : ℕ
  pub unicast_retries : ℕ
  pub pending_route_discovery_attempts : ℕ
  pub handoff_timeout : ℕ

-- `max_by_key(|(id, priority)| (priority, Reverse(id)))`: of equal maxima it keeps the last.
abbrev pub priority_le : ℕ × TxPriority → ℕ × TxPriority → Bool
priority_le x y = ltb (rank x.1) (rank y.1) || (rank x.1 == rank y.1 && leb y.0 x.0)

module _ {ℓ} {A : Type ℓ} (key : A → ℕ × TxPriority) where
  unfoldable pub max_from : A → List A → A
  max_from x [] = x
  max_from x (y ∷ ys) = max_from (if priority_le (key x) (key y) then y else x) ys

  unfoldable pub max_by_priority : List A → Option A
  max_by_priority [] = none
  max_by_priority (x ∷ xs) = some (max_from x xs)

-- `iter().min()` of instants, and of optional ones with the missing left out.
abbrev pub min_with : ℕ → Option ℕ → ℕ
min_with a none = a
min_with a (some b) = if leb a b then a else b

unfoldable pub earliest : List (Option ℕ) → Option ℕ
earliest [] = none
earliest (none ∷ xs) = earliest xs
earliest (some a ∷ xs) = some (min_with a (earliest xs))

-- ===== src/Sends/UnicastRecord.antt =====
-- crates/ziggurat-zigbee/src/sends/unicasts.rs: the record of a unicast, its stages, and what the code
-- reads off a record.
use ziggurat.Base.{ℕ, ◌-◌, Bool, true, false, ◌&&◌, Option, none, some, if◌then◌else◌, leb}
use ziggurat.Base.Order.{nat_ord}
use ziggurat.Types.{Nwk, Eui64}
use ziggurat.Time.{later}
use ziggurat.FlatMap
use ziggurat.FlatMap.{FlatMap, values}
use ziggurat.FlatMap.Set
use ziggurat.Sends.{
  Address, address_eq, TxPriority, ApsAckData, ack_eq, SendFailure, Confirm, SrcMatchTable,
  Tunables, option_eq,
}

-- What a unicast is enqueued with.
pub record Unicast (F W : Type 0) : Type 0 where
  pub frame : F
  pub priority : TxPriority
  pub waiter : W
  pub confirm : Confirm
  pub next_hop : Nwk
  pub poll_address : Option Address

pub data Stage : Type 0 where
  queued : Stage
  transmitting : Bool → Stage
  retrying : ℕ → Stage
  awaiting_poll awaiting_aps_ack : Stage

pub record Record (F W : Type 0) : Type 0 where
  pub frame : Option F
  pub priority : TxPriority
  pub waiter : W
  pub confirm : Confirm
  pub next_hop : Nwk
  pub poll_address : Option Address
  pub attempts_remaining : ℕ
  pub stage : Stage
  pub deadline : ℕ
  pub copy_of : Option ℕ

abbrev pub Unicasts : Type 0 → Type 0 → Type 0
Unicasts F W = FlatMap ℕ (Record F W)

-- Tests on a stage, as the patterns of the code.
abbrev pub is_queued : Stage → Bool
is_queued Stage.queued = true
is_queued _ = false

abbrev pub is_lent : Stage → Bool
is_lent (Stage.transmitting acked) = true
is_lent _ = false

abbrev pub is_awaiting_poll : Stage → Bool
is_awaiting_poll Stage.awaiting_poll = true
is_awaiting_poll _ = false

abbrev pub is_awaiting_aps_ack : Stage → Bool
is_awaiting_aps_ack Stage.awaiting_aps_ack = true
is_awaiting_aps_ack _ = false

-- The flag of `Stage::Transmitting`.
abbrev pub acked_of : Stage → Option Bool
acked_of (Stage.transmitting acked) = some acked
acked_of _ = none

abbrev pub pending_in : Stage → Bool
pending_in Stage.queued = true
pending_in (Stage.transmitting acked) = true
pending_in Stage.awaiting_poll = true
pending_in _ = false

-- The failure that a lapsed deadline means for a send that was not handed off.
abbrev pub not_handed_off : Option Address → SendFailure
not_handed_off none = SendFailure.handoff_timeout
not_handed_off (some destination) = SendFailure.indirect_expired destination

abbrev pub failure_in : Stage → Option Address → Option SendFailure
failure_in (Stage.transmitting acked) poll = none
failure_in Stage.awaiting_aps_ack poll = some SendFailure.aps_ack_timeout
failure_in _ poll = some (not_handed_off poll)

abbrev pub wake_in : Stage → ℕ → Option ℕ
wake_in (Stage.transmitting acked) deadline = none
wake_in (Stage.retrying at) deadline = some (if leb at deadline then at else deadline)
wake_in _ deadline = some deadline

-- `retrying` sends whose time has come are queued again.
abbrev pub requeued_stage : ℕ → Stage → Stage
requeued_stage now (Stage.retrying at) = if leb at now then Stage.queued else Stage.retrying at
requeued_stage now stage = stage

-- The stage and deadline of a new record.
abbrev pub admission : Option Address → Option ℕ → ℕ → Tunables → Stage × ℕ
admission none none now t = (Stage.queued, later now t.handoff_timeout)
admission none (some deadline) now t = (Stage.queued, deadline)
admission (some a) none now t = (Stage.awaiting_poll, later now t.transaction_persistence_time)
admission (some a) (some deadline) now t = (
  Stage.awaiting_poll,
  (let limit = later now t.transaction_persistence_time in
      if leb limit deadline then limit else deadline),
)

-- The wait for an end-to-end acknowledgment that is still to come.
abbrev pub wait_for : Confirm → Bool → Option ℕ
wait_for Confirm.on_handoff acked = none
wait_for (Confirm.aps_ack ack wait) acked = if acked then none else some wait

abbrev pub expects : ApsAckData → Confirm → Bool
expects ack Confirm.on_handoff = false
expects ack (Confirm.aps_ack expected wait) = ack_eq expected ack

-- `pending_for() == Some(address)`, and the tests of a poll.
abbrev pub is_for : Option Address → Address → Bool
is_for none a = false
is_for (some b) a = address_eq b a

abbrev pub polled_by : Option Eui64 → Option Nwk → Option Address → Bool
polled_by eui64 nwk none = false
polled_by eui64 nwk (some (Address.extended e)) = option_eq eui64 (some e)
polled_by eui64 nwk (some (Address.short n)) = option_eq nwk (some n)

abbrev pub add_address : FlatMap Eui64 Nwk → SrcMatchTable → Option Address → SrcMatchTable
add_address known t none = t
add_address known t (some (Address.extended eui64)) =
    let seen = record t { extended_addresses = (Set.insert t.extended_addresses eui64).0 } in
    elim (FlatMap.get known eui64) [
      | none ↦ seen
      | some nwk ↦ record seen { short_addresses = (Set.insert t.short_addresses nwk).0 }
    ]
add_address known t (some (Address.short nwk)) = record t {
  short_addresses = (Set.insert t.short_addresses nwk).0;
}

module _ {F W : Type 0} where
  abbrev pub retry : ℕ → ℕ → Record F W → Record F W
  retry now delay r = record r {
    attempts_remaining = r.attempts_remaining - 1;
    stage = Stage.retrying (later now delay);
  }

  abbrev pub give_back : F → Record F W → Record F W
  give_back frame r = record r { frame = some frame }

  pub pending_for : Record F W → Option Address
  pending_for r = if pending_in r.stage then r.poll_address else none

  unfoldable pub deadline_failure : Record F W → Option SendFailure
  deadline_failure r = failure_in r.stage r.poll_address

  unfoldable pub next_wake_of : Record F W → Option ℕ
  next_wake_of r = wake_in r.stage r.deadline

  abbrev pub dropped : Option Eui64 → Nwk → ℕ → Record F W → Option SendFailure
  dropped eui64 nwk id r =
      if is_awaiting_poll r.stage && polled_by eui64 (some nwk) r.poll_address
      then some (not_handed_off r.poll_address)
      else none

  abbrev pub requeue : ℕ → Record F W → Record F W
  requeue now r = record r { stage = requeued_stage now r.stage }

  -- The deadline is tested on the record as the loop has left it.
  abbrev pub lapsed : ℕ → ℕ → Record F W → Option SendFailure
  lapsed now id r = if leb r.deadline now then deadline_failure (requeue now r) else none

  abbrev pub new_record : Unicast F W → ℕ → Option ℕ → Option ℕ → Tunables → Record F W
  new_record u now admitted copy_of t = record {
    frame = some u.frame;
    priority = u.priority;
    waiter = u.waiter;
    confirm = u.confirm;
    next_hop = u.next_hop;
    poll_address = u.poll_address;
    attempts_remaining = t.unicast_retries;
    stage = (admission u.poll_address admitted now t).0;
    deadline = (admission u.poll_address admitted now t).1;
    copy_of = copy_of;
  }

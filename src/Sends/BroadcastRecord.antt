-- ===== src/Sends/BroadcastRecord.antt =====
-- crates/ziggurat-zigbee/src/sends/broadcasts.rs: the record of a broadcast, its schedule, and what the
-- code reads off a record.
use ziggurat.Base.{
  ℕ, ◌-◌, Bool, true, false, ◌&&◌, Option, none, some, if◌then◌else◌, ok, err, ltb, leb, ◌==◌,
}
use ziggurat.Base.Order.{nat_ord}
use ziggurat.Types.{Nwk}
use ziggurat.Time.{later}
use ziggurat.FlatMap.{FlatMap}
use ziggurat.Sends.{TxPriority, Verdict, Tunables}

pub data Schedule : Type 0 where
  once : Schedule
  -- The key, the copies remaining and the next attempt.
  passive_ack : Nwk × ℕ → ℕ → ℕ → Schedule
  -- The interval, the copies remaining and the next attempt.
  fixed_interval : ℕ → ℕ → ℕ → Schedule

-- What a broadcast is enqueued with.
pub record Broadcast (F W : Type 0) : Type 0 where
  pub frame : F
  pub priority : TxPriority
  pub waiter : W
  pub schedule : Schedule

pub data Due : Type 0 where
  copy over : Due

pub data CopyState : Type 0 where
  idle queued transmitting : CopyState

pub record Record (F W E : Type 0) : Type 0 where
  pub frame : Option F
  pub priority : TxPriority
  pub waiter : W
  pub schedule : Schedule
  pub copy : CopyState
  pub handed_off : Bool
  pub quorum_heard : Bool
  pub last_error : Option E
  pub deadline : ℕ

abbrev pub Broadcasts : Type 0 → Type 0 → Type 0 → Type 0
Broadcasts F W E = FlatMap ℕ (Record F W E)

abbrev pub is_queued : CopyState → Bool
is_queued CopyState.queued = true
is_queued _ = false

abbrev pub is_idle : CopyState → Bool
is_idle CopyState.idle = true
is_idle _ = false

abbrev pub is_lent : CopyState → Bool
is_lent CopyState.transmitting = true
is_lent _ = false

abbrev pub attempt_of : Schedule → Option ℕ
attempt_of Schedule.once = none
attempt_of (Schedule.passive_ack key copies next) = some next
attempt_of (Schedule.fixed_interval interval copies next) = some next

abbrev pub key_of : Schedule → Option (Nwk × ℕ)
key_of (Schedule.passive_ack key copies next) = some key
key_of _ = none

abbrev pub is_once : Schedule → Bool
is_once Schedule.once = true
is_once _ = false

-- The copy state at admission.
abbrev pub first_copy : Schedule → CopyState
first_copy Schedule.once = CopyState.queued
first_copy _ = CopyState.idle

-- The schedule once a copy's transmit has completed.
abbrev pub rearmed : ℕ → ℕ → Schedule → Schedule
rearmed now passive_ack_interval Schedule.once = Schedule.once
rearmed now passive_ack_interval (Schedule.passive_ack key copies next) =
    Schedule.passive_ack key copies (later now passive_ack_interval)
rearmed now passive_ack_interval (Schedule.fixed_interval interval copies next) =
    Schedule.fixed_interval interval copies (later now interval)

-- Whether a copy is due, and the schedule with it consumed.
unfoldable pub schedule_due : Schedule → ℕ → Schedule × Option Due
schedule_due Schedule.once now = (Schedule.once, none)
schedule_due (Schedule.passive_ack key copies next) now =
    if ltb now next
    then (Schedule.passive_ack key copies next, none)
    else if copies == 0
    then (Schedule.passive_ack key copies next, some Due.over)
    else (Schedule.passive_ack key (copies - 1) next, some Due.copy)
schedule_due (Schedule.fixed_interval interval copies next) now =
    if ltb now next
    then (Schedule.fixed_interval interval copies next, none)
    else if copies == 0
    then (Schedule.fixed_interval interval copies next, some Due.over)
    else (Schedule.fixed_interval interval (copies - 1) next, some Due.copy)

abbrev pub key_eq : Option (Nwk × ℕ) → Nwk × ℕ → Bool
key_eq none key = false
key_eq (some k) key = k.0 == key.0 && k.1 == key.1

abbrev pub is_ok : {E : Type 0} → Verdict E → Bool
is_ok (ok u) = true
is_ok (err e) = false

module _ {F W E : Type 0} where
  abbrev pub wake_in : CopyState → Record F W E → Option ℕ
  wake_in CopyState.transmitting r = none
  wake_in CopyState.queued r = some r.deadline
  wake_in CopyState.idle r = elim (attempt_of r.schedule) [
    | none ↦ some r.deadline
    | some next ↦ some (if leb next r.deadline then next else r.deadline)
  ]

  unfoldable pub next_wake_of : Record F W E → Option ℕ
  next_wake_of r = wake_in r.copy r

  abbrev pub new_record : Broadcast F W → ℕ → Tunables → Record F W E
  new_record b now t = record {
    frame = some b.frame;
    priority = b.priority;
    waiter = b.waiter;
    schedule = b.schedule;
    copy = first_copy b.schedule;
    handed_off = false;
    quorum_heard = false;
    last_error = none;
    deadline = later now t.handoff_timeout;
  }

-- ===== src/Sends/Unicasts.antt =====
-- crates/ziggurat-zigbee/src/sends/unicasts.rs: unicasts with a known next hop, delivered directly or
-- when a sleepy child polls. `settle` is split into the removal and what it reports; the debug
-- assertions, which a release build drops, are not part of the model.
pub mod Books
pub mod Steps
pub use ziggurat.Sends.UnicastRecord.{
  Unicast, Stage, Record, Unicasts, is_queued, is_lent, is_awaiting_poll, is_awaiting_aps_ack,
  acked_of, pending_in, not_handed_off, failure_in, wake_in, requeued_stage, admission, wait_for,
  expects, is_for, polled_by, add_address, retry, give_back, pending_for, dropped, requeue, lapsed,
  new_record,
}
unfoldable pub use ziggurat.Sends.UnicastRecord.{deadline_failure, next_wake_of}
use mathlib.Core.Option
use ziggurat.Base.{
  ℕ, ◌-◌, ◌≡◌, Bool, true, false, ◌&&◌, ◌||◌, not, Option, none, some, List, [], ◌∷◌, ◌++◌, map,
  if◌then◌else◌, Result, ok, err, ltb, leb, ◌==◌, any, find, filterb,
}
use ziggurat.Base.Order.{nat_ord}
use ziggurat.Types.{Nwk, Eui64}
use ziggurat.Time.{later}
use ziggurat.FlatMap
use ziggurat.FlatMap.{FlatMap, values}
use ziggurat.FlatMap.Set
use ziggurat.FlatMap.Drain.{collect, drain}
use ziggurat.Sends.{
  Address, address_eq, TxPriority, ApsAckData, ack_eq, SendFailure, Confirm, Transmit, InFlight,
  Verdict, Action, SrcMatchTable, Tunables, max_by_priority, min_with, earliest, option_eq,
}

module _ {F W : Type 0} where
  unfoldable pub enqueue :
      Unicasts F W → ℕ → Unicast F W → ℕ → Option ℕ → Option ℕ → Tunables → Unicasts F W
  enqueue m id u now admitted copy_of t =
      (FlatMap.insert m id (new_record u now admitted copy_of t)).0

  unfoldable pub ready : ℕ → Record F W → Bool
  ready now r = is_queued r.stage && ltb now r.deadline

  unfoldable pub best_queued : Unicasts F W → ℕ → Option (ℕ × TxPriority)
  best_queued m now =
      max_by_priority (λ e. e)
        (map (λ e. (e.0, e.1.priority)) (filterb (λ e. ready now e.1) m.entries))

  -- More frames await the same device.
  unfoldable pub more_pending : Unicasts F W → ℕ → Option Address → Bool
  more_pending m id none = false
  more_pending m id (some a) = any (λ e. not (e.0 == id) && is_for (pending_for e.1) a) m.entries

  abbrev pub lend : Record F W → Record F W
  lend r = record r { frame = none; stage = Stage.transmitting false }

  unfoldable pub dequeue : Unicasts F W → ℕ → Option (InFlight F × Unicasts F W)
  dequeue m id = elim (FlatMap.get m id) [
    | none ↦ none
    | some r ↦ elim r.frame [
      | none ↦ none
      | some frame ↦ some (
        record {
          id = id;
          frame = frame;
          transmit = Transmit.unicast r.next_hop (more_pending m id r.poll_address);
        },
        FlatMap.modify m id lend,
      )
    ]
  ]

  unfoldable pub oldest_polled :
      Unicasts F W → Option Eui64 → Option Nwk → ℕ → Option (ℕ × Record F W)
  oldest_polled m eui64 nwk now =
      find
        (λ e.
          is_awaiting_poll e.1.stage
          && polled_by eui64 nwk e.1.poll_address
          && ltb now e.1.deadline)
        m.entries

  abbrev pub answer : Record F W → Record F W
  answer r = record r { priority = TxPriority.stack_critical; stage = Stage.queued }

  unfoldable pub poll : Unicasts F W → Option Eui64 → Option Nwk → ℕ → Unicasts F W × Bool
  poll m eui64 nwk now = elim (oldest_polled m eui64 nwk now) [
    | none ↦ (m, false)
    | some (id, r) ↦ (FlatMap.modify m id answer, true)
  ]

  -- The loop over `pop_first`.
  unfoldable pub abandon : Unicasts F W → List W × Unicasts F W
  abandon m = (map (λ r. r.waiter) (values m), FlatMap.new)

  unfoldable pub is_transmitting : Unicasts F W → ℕ → Option Bool
  is_transmitting m id = Option.map (λ r. is_lent r.stage) (FlatMap.get m id)

  abbrev pub copies : ℕ → ℕ → Record F W → Option (Unit {0})
  copies broadcast id r = if option_eq r.copy_of (some broadcast) then some tt else none

  unfoldable pub copies_of : Unicasts F W → ℕ → List (ℕ × Unit {0})
  copies_of m broadcast = collect (copies broadcast) m.entries

  unfoldable pub next_wake : Unicasts F W → Option ℕ
  next_wake m = earliest (map next_wake_of (values m))

  unfoldable pub add_addresses :
      FlatMap Eui64 Nwk → SrcMatchTable → List (Record F W) → SrcMatchTable
  add_addresses known t [] = t
  add_addresses known t (r ∷ rs) = add_addresses known (add_address known t (pending_for r)) rs

  pub poll_addresses : Unicasts F W → FlatMap Eui64 Nwk → SrcMatchTable
  poll_addresses m known =
      add_addresses known (record { short_addresses = Set.empty; extended_addresses = Set.empty })
        (values m)

  pub has_awaiting_poll : Unicasts F W → Address → Bool
  has_awaiting_poll m a = any (λ r. is_for (pending_for r) a) (values m)

module _ {F W E : Type 0} where
  -- What `settle` reports; it panics if the frame is on loan.
  unfoldable pub report : Record F W → Verdict E → Option Nwk → Option (List (Action F W E))
  report r result failed_hop =
      Option.map
        (λ frame.
          let over = Action.settled r.waiter result frame failed_hop ∷ [] in
          if is_awaiting_aps_ack r.stage then Action.handed_off r.waiter ∷ over else over)
        r.frame

  unfoldable pub settle :
      Unicasts F W → ℕ → Verdict E → Option Nwk → Option (Unicasts F W × List (Action F W E))
  settle m id result failed_hop = elim (FlatMap.remove m id).1 [
    | none ↦ none
    | some r ↦
        Option.map (λ actions. ((FlatMap.remove m id).0, actions)) (report r result failed_hop)
  ]

  unfoldable pub hand_off :
      Unicasts F W → ℕ → ℕ → Bool → Option (Unicasts F W × List (Action F W E))
  hand_off m id now acked = elim (FlatMap.get m id) [
    | none ↦ none
    | some r ↦ elim (wait_for r.confirm acked) [
      | none ↦ settle m id (ok tt) none
      | some wait ↦ some (
        FlatMap.modify m id
            (λ s. record s { stage = Stage.awaiting_aps_ack; deadline = later now wait }),
        Action.handed_off r.waiter ∷ [],
      )
    ]
  ]

  -- The frame is back; the radio failed and no acknowledgment has come.
  unfoldable pub failed :
      Unicasts F W
      → ℕ
      → Record F W
      → E
      → ℕ
      → ℕ
      → Option Address
      → Option (Unicasts F W × List (Action F W E))
  failed m id r e now delay (some a) =
      if ltb now r.deadline
      then some (FlatMap.modify m id (λ s. record s { stage = Stage.awaiting_poll }), [])
      else settle m id (err e) none
  failed m id r e now delay none =
      if r.attempts_remaining == 0
      then settle m id (err e) (some r.next_hop)
      else some (FlatMap.modify m id (retry now delay), [])

  unfoldable pub outcome :
      Unicasts F W
      → ℕ
      → Record F W
      → Bool
      → Verdict E
      → ℕ
      → ℕ
      → Option (Unicasts F W × List (Action F W E))
  outcome m id r acked (ok u) now delay = hand_off m id now acked
  outcome m id r acked (err e) now delay =
      if acked then hand_off m id now acked else failed m id r e now delay r.poll_address

  unfoldable pub transmitted :
      Unicasts F W → ℕ → F → Verdict E → ℕ → ℕ → Option (Unicasts F W × List (Action F W E))
  transmitted m id frame result now delay = elim (FlatMap.get m id) [
    | none ↦ none
    | some r ↦ elim (acked_of r.stage) [
      | none ↦ none
      | some acked ↦ outcome (FlatMap.modify m id (give_back frame)) id r acked result now delay
    ]
  ]

  unfoldable pub ack_received :
      Unicasts F W → ApsAckData → Option (Unicasts F W × List (Action F W E))
  ack_received m ack = elim (find (λ e. expects ack e.1.confirm) m.entries) [
    | none ↦ some (m, [])
    | some (id, r) ↦
        if is_lent r.stage
        then some (FlatMap.modify m id (λ s. record s { stage = Stage.transmitting true }), [])
        else settle m id (ok tt) none
  ]

-- `from` makes the driver's error of a failure.
module _ {F W E : Type 0} (from : SendFailure → E) where
  abbrev pub fail_with : ℕ → Record F W → SendFailure → Option (List (Action F W E))
  fail_with id r failure = report r (err (from failure)) none

  unfoldable pub drop_indirect :
      Unicasts F W → Option Eui64 → Nwk → Option (Unicasts F W × List (Action F W E))
  drop_indirect m eui64 nwk = drain fail_with (collect (dropped eui64 nwk) m.entries) m

  -- `some none` is the refusal.
  unfoldable pub cancel : Unicasts F W → ℕ → Option (Option (Unicasts F W × List (Action F W E)))
  cancel m id = elim (FlatMap.get m id) [
    | none ↦ some none
    | some r ↦
        if is_lent r.stage
        then some none
        else Option.map some (settle m id (err (from SendFailure.cancelled)) none)
  ]

  unfoldable pub tick : Unicasts F W → ℕ → Option (Unicasts F W × List (Action F W E))
  tick m now =
      drain fail_with (collect (lapsed now) m.entries) (FlatMap.update_values (requeue now) m)

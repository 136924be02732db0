-- ===== src/Sends/Broadcasts.antt =====
-- crates/ziggurat-zigbee/src/sends/broadcasts.rs: a frame sent once, or again on a schedule.
-- `settle` is split into the removal and what it reports; the debug assertions, which a release build
-- drops, are not part of the model.
pub mod Books
pub mod Reported
pub mod Steps
pub mod Timer
pub use ziggurat.Sends.BroadcastRecord.{
  Schedule, Broadcast, Due, CopyState, Record, Broadcasts, is_queued, is_idle, is_lent, attempt_of,
  key_of, is_once, first_copy, rearmed, key_eq, is_ok, wake_in, new_record,
}
unfoldable pub use ziggurat.Sends.BroadcastRecord.{schedule_due, next_wake_of}
use mathlib.Core.Option
use ziggurat.Base.{
  ℕ, ◌-◌, ◌≡◌, Bool, true, false, ◌&&◌, ◌||◌, not, Option, none, some, List, [], ◌∷◌, ◌++◌, map,
  if◌then◌else◌, Result, ok, err, ltb, leb, ◌==◌, find, filterb,
}
use ziggurat.Base.Order.{nat_ord}
use ziggurat.Types.{Nwk}
use ziggurat.Time.{later}
use ziggurat.FlatMap
use ziggurat.FlatMap.{FlatMap, values}
use ziggurat.FlatMap.Drain.{collect, drain}
use ziggurat.Sends.{
  TxPriority, SendFailure, Transmit, InFlight, Verdict, Action, Tunables, max_by_priority, earliest,
}

module _ {F W E : Type 0} where
  unfoldable pub enqueue : Broadcasts F W E → ℕ → Broadcast F W → ℕ → Tunables → Broadcasts F W E
  enqueue m id b now t = (FlatMap.insert m id (new_record b now t)).0

  unfoldable pub ready : ℕ → Record F W E → Bool
  ready now r = is_queued r.copy && ltb now r.deadline

  unfoldable pub best_queued : Broadcasts F W E → ℕ → Option (ℕ × TxPriority)
  best_queued m now =
      max_by_priority (λ e. e)
        (map (λ e. (e.0, e.1.priority)) (filterb (λ e. ready now e.1) m.entries))

  abbrev pub lend : Record F W E → Record F W E
  lend r = record r { frame = none; copy = CopyState.transmitting }

  unfoldable pub dequeue : Broadcasts F W E → ℕ → Option (InFlight F × Broadcasts F W E)
  dequeue m id = elim (FlatMap.get m id) [
    | none ↦ none
    | some r ↦ elim r.frame [
      | none ↦ none
      | some frame ↦ some (
        record { id = id; frame = frame; transmit = Transmit.broadcast },
        FlatMap.modify m id lend,
      )
    ]
  ]

  -- What `settle` reports; it panics if the frame is on loan.
  unfoldable pub report : Record F W E → Verdict E → Option (List (Action F W E))
  report r result =
      Option.map
        (λ frame.
          let over = Action.settled r.waiter result frame none ∷ [] in
          if r.handed_off then Action.handed_off r.waiter ∷ over else over)
        r.frame

  unfoldable pub settle :
      Broadcasts F W E → ℕ → Verdict E → Option (Broadcasts F W E × List (Action F W E))
  settle m id result = elim (FlatMap.remove m id).1 [
    | none ↦ none
    | some r ↦ Option.map (λ actions. ((FlatMap.remove m id).0, actions)) (report r result)
  ]

  abbrev pub settle_with : ℕ → Record F W E → Option (Verdict E) → Option (List (Action F W E))
  settle_with id r none = none
  settle_with id r (some verdict) = report r verdict

  -- The record with its frame back and its schedule armed again.
  abbrev pub returned : F → ℕ → ℕ → Record F W E → Record F W E
  returned frame now passive_ack_interval r = record r {
    copy = CopyState.idle;
    frame = some frame;
    schedule = rearmed now passive_ack_interval r.schedule;
  }

  -- What the record keeps of a copy's result.
  abbrev pub noted : Verdict E → Record F W E → Record F W E
  noted (ok u) r = record r { handed_off = true }
  noted (err e) r = record r { last_error = some e }

  -- The rest of a report on a scheduled copy; `r` is the record as it was.
  unfoldable pub noted_result :
      Broadcasts F W E
      → ℕ
      → Record F W E
      → Verdict E
      → Option (Broadcasts F W E × List (Action F W E))
  noted_result m id r result =
      if r.quorum_heard && (r.handed_off || is_ok result)
      then settle m id (ok tt)
      else if is_ok result && not r.handed_off
      then some (m, Action.handed_off r.waiter ∷ [])
      else some (m, [])

  unfoldable pub transmitted :
      Broadcasts F W E → ℕ → F → Verdict E → ℕ → ℕ → Option (Broadcasts F W E × List (Action F W E))
  transmitted m id frame result now passive_ack_interval = elim (FlatMap.get m id) [
    | none ↦ none
    | some r ↦
        let back = FlatMap.modify m id (returned frame now passive_ack_interval) in
        if is_once r.schedule
        then settle back id result
        else noted_result (FlatMap.modify back id (noted result)) id r result
  ]

  abbrev pub awaits : Record F W E → Option (Nwk × ℕ)
  awaits r = if r.quorum_heard then none else key_of r.schedule

  pub awaiting_quorum : Broadcasts F W E → List (Nwk × ℕ)
  awaiting_quorum m = map (λ e. e.1) (collect (λ id. awaits) m.entries)

  unfoldable pub delivered :
      Broadcasts F W E → Nwk × ℕ → Option (Broadcasts F W E × List (Action F W E))
  delivered m key = elim (find (λ e. key_eq (key_of e.1.schedule) key) m.entries) [
    | none ↦ some (m, [])
    | some (id, r) ↦
        if is_lent r.copy || not r.handed_off
        then some (FlatMap.modify m id (λ s. record s { quorum_heard = true }), [])
        else settle m id (ok tt)
  ]

  -- The loop over `pop_first`.
  unfoldable pub abandon : Broadcasts F W E → List W × Broadcasts F W E
  abandon m = (map (λ r. r.waiter) (values m), FlatMap.new)

  unfoldable pub next_wake : Broadcasts F W E → Option ℕ
  next_wake m = earliest (map next_wake_of (values m))

-- `none` is the unreachable case of a single copy.
abbrev pub handed_off_verdict : {E : Type 0} → (SendFailure → E) → Schedule → Option (Verdict E)
handed_off_verdict from Schedule.once = none
handed_off_verdict from (Schedule.passive_ack key copies next) =
    some (err (from SendFailure.broadcast_quorum_not_reached))
handed_off_verdict from (Schedule.fixed_interval interval copies next) = some (ok tt)

-- `from` makes the driver's error of a failure.
module _ {F W E : Type 0} (from : SendFailure → E) where
  -- `some none` is the refusal.
  unfoldable pub cancel :
      Broadcasts F W E → ℕ → Option (Option (Broadcasts F W E × List (Action F W E)))
  cancel m id = elim (FlatMap.get m id) [
    | none ↦ some none
    | some r ↦
        if is_lent r.copy
        then some none
        else Option.map some (settle m id (err (from SendFailure.cancelled)))
  ]

  -- The verdict of a schedule that ran out; it panics where no copy has come back yet.
  abbrev pub run_out : Record F W E → Option (Verdict E)
  run_out r =
      if r.handed_off then handed_off_verdict from r.schedule else Option.map err r.last_error

  abbrev pub out_of_time : Record F W E → Option (Verdict E)
  out_of_time r =
      if r.handed_off
      then handed_off_verdict from r.schedule
      else some (err (from SendFailure.handoff_timeout))

  -- What one round of the loop makes of a record: the record, and whether it is settled, with the
  -- verdict or a panic.
  abbrev pub by_deadline : ℕ → Record F W E → Record F W E × Option (Option (Verdict E))
  by_deadline now r = (r, (if leb r.deadline now then some (out_of_time r) else none))

  abbrev pub after_due : ℕ → Record F W E → Option Due → Record F W E × Option (Option (Verdict E))
  after_due now r none = by_deadline now r
  after_due now r (some Due.copy) = by_deadline now (record r { copy = CopyState.queued })
  after_due now r (some Due.over) = (r, some (run_out r))

  unfoldable pub tick_record : ℕ → Record F W E → Record F W E × Option (Option (Verdict E))
  tick_record now r =
      if is_lent r.copy
      then (r, none)
      else if is_idle r.copy
      then after_due now (record r { schedule = (schedule_due r.schedule now).0 })
          (schedule_due r.schedule now).1
      else by_deadline now r

  -- The verdicts are taken in the first loop, on the records as they were.
  abbrev pub settled_at : ℕ → ℕ → Record F W E → Option (Option (Verdict E))
  settled_at now id r = (tick_record now r).1

  unfoldable pub tick : Broadcasts F W E → ℕ → Option (Broadcasts F W E × List (Action F W E))
  tick m now =
      drain settle_with (collect (settled_at now) m.entries)
        (FlatMap.update_values (λ r. (tick_record now r).0) m)

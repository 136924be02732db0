-- ===== src/Sends/World.antt =====
-- Histories of the send tables: the driver's calls of `Sends` in crates/ziggurat-zigbee/src/sends/mod.rs
-- as events, with the frames that the sender holds beside the tables. A frame is lent by `dequeue`, the
-- sender may write it through `frame_mut`, and it comes back by `transmitted` once, which the code has its types check. `abandon`, after which no
-- frame is reported on, ends a history.
pub mod Valid
pub mod Loans
pub mod Reports
pub mod Moved
pub mod Route
pub mod Calls
pub mod Cancel
pub mod Steps
pub mod Histories
use mathlib.Core.Option
use ziggurat.Base.{
  ℕ, ◌+◌, ◌<◌, ◌≤◌, ◌≡◌, Bool, true, false, ◌&&◌, not, Option, none, some, List, [], ◌∷◌, ◌++◌,
  if◌then◌else◌, ◌==◌, Result, u32_max,
}
use ziggurat.Base.Order.{nat_ord, key_eq}
use ziggurat.Types.{Nwk, Eui64}
use ziggurat.Sends.{
  Address, ApsAckData, SendFailure, Transmit, InFlight, frame_mut, Verdict, Action, Tunables,
}
use ziggurat.Sends.Unicasts.{Unicast}
use ziggurat.Sends.Unrouted.{UnroutedUnicast}
use ziggurat.Sends.Broadcasts.{Broadcast, Schedule, is_once}
use ziggurat.Sends.Broadcasts.Books.{copies_left}
use ziggurat.Sends.Front
use ziggurat.Sends.Settling
use ziggurat.Sends.Front.{Sends}

pub record World (F W E : Type 0) : Type 0 where
  pub sends : Sends F W E
  pub lent : List (InFlight F)

pub data Event (F W E : Type 0) : Type 0 where
  enqueue_unicast : Unicast F W → ℕ → Event F W E
  enqueue_broadcast_copy : ℕ → Unicast F W → ℕ → Event F W E
  enqueue_unrouted_unicast : UnroutedUnicast F W → ℕ → Event F W E
  enqueue_broadcast : Broadcast F W → ℕ → Event F W E
  dequeue : ℕ → Event F W E
  -- The frames lent before and after the one that the sender writes, and the frame that it writes.
  write_frame : List (InFlight F) → InFlight F → List (InFlight F) → F → Event F W E
  -- The frames lent before and after the one that is reported, the result, the time and both waits.
  transmitted :
      List (InFlight F) → InFlight F → List (InFlight F) → Verdict E → ℕ → ℕ → ℕ → Event F W E
  poll : Option Eui64 → Option Nwk → ℕ → Event F W E
  aps_ack_received : ApsAckData → Event F W E
  retry_discovery : Nwk → Event F W E
  fail_unrouted : Nwk → Event F W E
  route_unicasts : Nwk → ℕ → Event F W E
  broadcast_delivered : Nwk × ℕ → Event F W E
  drop_indirect_unicasts : Option Eui64 → Nwk → Event F W E
  cancel : ℕ → Event F W E
  tick : ℕ → Event F W E

abbrev pub is_unicast : Transmit → Bool
is_unicast (Transmit.unicast next_hop pending) = true
is_unicast Transmit.broadcast = false

-- A schedule that owes at least one copy.
abbrev pub Owes : Schedule → Type 0
Owes s = is_once s ≡ false → (copies_left s == 0) ≡ false

abbrev pub Outcome : Type 0 → Type 0 → Type 0 → Type 0
Outcome F W E = Option (World F W E × List (Action F W E))

module _ {F W E : Type 0} where
  abbrev pub start : World F W E
  start = record { sends = Front.default; lent = [] }

  -- What the code asks of a call: ids are not used up, a schedule owes a copy, a write or a report is
  -- on a frame that is lent, and a restart is for a destination that is awaited.
  abbrev pub Legal : World F W E → Event F W E → Type 0
  Legal w (Event.enqueue_unicast u now) = w.sends.next_id < u32_max
  Legal w (Event.enqueue_broadcast_copy b u now) = w.sends.next_id < u32_max
  Legal w (Event.enqueue_unrouted_unicast u now) = w.sends.next_id < u32_max
  Legal w (Event.enqueue_broadcast b now) = (w.sends.next_id < u32_max) × Owes b.schedule
  Legal w (Event.write_frame before l after frame) = w.lent ≡ before ++ l ∷ after
  Legal w (Event.transmitted before l after result now delay interval) =
      w.lent ≡ before ++ l ∷ after
  Legal w (Event.retry_discovery destination) = Front.has_unrouted w.sends destination ≡ true
  Legal w e = Unit

  -- The weight of the waiters that an event admits.
  abbrev pub admitted : (W → ℕ) → Event F W E → ℕ
  admitted weight (Event.enqueue_unicast u now) = weight u.waiter
  admitted weight (Event.enqueue_broadcast_copy b u now) = weight u.waiter
  admitted weight (Event.enqueue_unrouted_unicast u now) = weight u.waiter
  admitted weight (Event.enqueue_broadcast b now) = weight b.waiter
  admitted weight e = 0

  abbrev pub silent : World F W E → Sends F W E → Outcome F W E
  silent w s = some (record w { sends = s }, [])

  abbrev pub acting : World F W E → Option (Sends F W E × List (Action F W E)) → Outcome F W E
  acting w none = none
  acting w (some (s, acts)) = some (record w { sends = s }, acts)

  -- A refusal changes nothing.
  abbrev pub cancelling :
      World F W E → Option (Option (Sends F W E × List (Action F W E))) → Outcome F W E
  cancelling w none = none
  cancelling w (some none) = some (w, [])
  cancelling w (some (some x)) = acting w (some x)

  abbrev pub lending : World F W E → Option (Option (InFlight F × Sends F W E)) → Outcome F W E
  lending w none = none
  lending w (some none) = some (w, [])
  lending w (some (some (l, s))) = some (record { sends = s; lent = l ∷ w.lent }, [])

  abbrev pub trying : World F W E → Option (Sends F W E × Bool) → Outcome F W E
  trying w none = none
  trying w (some (s, again)) = silent w s

module _ {F W E : Type 0} (from : SendFailure → E)
    (resolve : F → F × Result (Nwk × Option Address) E) (t : Tunables) where
  unfoldable pub step : World F W E → Event F W E → Outcome F W E
  step w (Event.enqueue_unicast u now) = silent w (Front.enqueue_unicast w.sends u now t).0
  step w (Event.enqueue_broadcast_copy b u now) =
      silent w (Front.enqueue_broadcast_copy w.sends b u now t).0
  step w (Event.enqueue_unrouted_unicast u now) =
      silent w (Front.enqueue_unrouted_unicast w.sends u now t).0
  step w (Event.enqueue_broadcast b now) = silent w (Front.enqueue_broadcast w.sends b now t).0
  step w (Event.dequeue now) = lending w (Front.dequeue w.sends now)
  step w (Event.write_frame before l after frame) =
      some (record w { lent = before ++ frame_mut l frame ∷ after }, [])
  step w (Event.transmitted before l after result now delay interval) =
      acting (record w { lent = before ++ after })
        (Front.transmitted w.sends l result now delay interval)
  step w (Event.poll eui64 nwk now) = silent w (Front.poll w.sends eui64 nwk now).0
  step w (Event.aps_ack_received ack) = acting w (Front.aps_ack_received w.sends ack)
  step w (Event.retry_discovery destination) = trying w (Front.retry_discovery w.sends destination)
  step w (Event.fail_unrouted destination) =
      acting w (Settling.fail_unrouted from w.sends destination)
  step w (Event.route_unicasts destination now) =
      acting w (Settling.route_unicasts resolve from w.sends destination now t)
  step w (Event.broadcast_delivered key) = acting w (Front.broadcast_delivered w.sends key)
  step w (Event.drop_indirect_unicasts eui64 nwk) =
      acting w (Settling.drop_indirect_unicasts from w.sends eui64 nwk)
  step w (Event.cancel id) = cancelling w (Settling.cancel from w.sends id)
  step w (Event.tick now) = acting w (Settling.tick from w.sends now)

  -- The histories: legal calls from the empty tables, with all events and all actions so far.
  pub data History : World F W E → List (Event F W E) → List (Action F W E) → Type 0 where
    begin : History start [] []
    next :
        {w v : World F W E} {es : List (Event F W E)} {acts more : List (Action F W E)}
        → History w es acts
        → (e : Event F W E) → Legal w e
        → step w e ≡ some (v, more)
        → History v (e ∷ es) (acts ++ more)

-- ===== src/Protocol/SendTracker.antt =====
-- crates/ziggurat-protocol/src/send_tracker.rs: the confirm frames of tracked sends, with the slot of
-- crates/ziggurat-driver/src/zigbee_stack/send_handle.rs that a handle reads. The wakes carry no data
-- and are left out, as are the payloads of a delivery error, which no confirm frame carries.
pub mod Entries
pub mod Table
pub mod Once
pub mod Progress
use ziggurat.Base.{
  ℕ, Bool, true, false, Option, none, some, List, [], ◌∷◌, ◌++◌, if◌then◌else◌, Result, ok, err,
  is_some,
}
use ziggurat.Base.Order.{nat_ord}
use ziggurat.FlatMap
use ziggurat.FlatMap.{FlatMap}
use mathlib.Core.Option

pub data DeliveryError : Type 0 where
  route_discovery_timeout route_inactive_after_discovery nwk_no_ack cca_failure : DeliveryError
  transmit_failed aps_ack_timeout handoff_timeout broadcast_quorum_not_reached : DeliveryError
  indirect_expired cancelled radio : DeliveryError

-- `Result<(), DeliveryError>`.
abbrev pub Verdict : Type 0
Verdict = Result (Unit {0}) DeliveryError

pub data SendStatus : Type 0 where
  success route_discovery_timeout route_discovery_no_entry route_inactive_after_discovery :
      SendStatus
  nwk_no_ack cca_failure frame_budget_exhausted : SendStatus
  transmit_failed aps_ack_timeout handoff_timeout broadcast_quorum_not_reached : SendStatus
  indirect_expired cancelled radio_error : SendStatus

abbrev pub error_status : DeliveryError → SendStatus
error_status DeliveryError.route_discovery_timeout = SendStatus.route_discovery_timeout
error_status DeliveryError.route_inactive_after_discovery =
    SendStatus.route_inactive_after_discovery
error_status DeliveryError.nwk_no_ack = SendStatus.nwk_no_ack
error_status DeliveryError.cca_failure = SendStatus.cca_failure
error_status DeliveryError.transmit_failed = SendStatus.transmit_failed
error_status DeliveryError.aps_ack_timeout = SendStatus.aps_ack_timeout
error_status DeliveryError.handoff_timeout = SendStatus.handoff_timeout
error_status DeliveryError.broadcast_quorum_not_reached = SendStatus.broadcast_quorum_not_reached
error_status DeliveryError.indirect_expired = SendStatus.indirect_expired
error_status DeliveryError.cancelled = SendStatus.cancelled
error_status DeliveryError.radio = SendStatus.radio_error

abbrev pub send_status : Verdict → SendStatus
send_status (ok u) = SendStatus.success
send_status (err e) = error_status e

pub record SendProgress : Type 0 where
  pub handed_off : Option Verdict
  pub delivered : Option Verdict

-- `SendSlot::handed_off` and `SendSlot::settled`.
unfoldable pub note_handed_off : SendProgress → SendProgress
note_handed_off p = if is_some p.handed_off then p else record p { handed_off = some (ok tt) }

unfoldable pub settled : SendProgress → Verdict → SendProgress
settled p result = record {
  handed_off = if is_some p.handed_off then p.handed_off else some result;
  delivered = some result;
}

pub data ConfirmKind : Type 0 where
  unicast_no_ack unicast_aps_ack broadcast : ConfirmKind

-- A handle is the identifier of its send.
pub record TrackedSend : Type 0 where
  pub handle : ℕ
  pub confirm_kind : ConfirmKind
  pub emitted_send_confirm : Bool

abbrev pub SendTracker : Type 0
SendTracker = FlatMap ℕ TrackedSend

abbrev pub fresh : ℕ → ConfirmKind → TrackedSend
fresh handle kind = record { handle = handle; confirm_kind = kind; emitted_send_confirm = false }

unfoldable pub insert : SendTracker → ℕ → ℕ → ConfirmKind → SendTracker
insert t id handle kind = (FlatMap.insert t id (fresh handle kind)).0

unfoldable pub send_id : SendTracker → ℕ → Option ℕ
send_id t id = Option.map (λ e. e.handle) (FlatMap.get t id)

-- The confirm frames among the notifications, each with its request identifier.
pub data Notification : Type 0 where
  send_confirm aps_ack_confirm broadcast_confirm : ℕ → SendStatus → Notification

-- What a sweep does with one entry.
pub record Swept : Type 0 where
  pub frames : List Notification
  pub entry : TrackedSend
  pub done : Bool

abbrev pub waiting : TrackedSend → Swept
waiting e = record { frames = []; entry = e; done = false }

abbrev pub last_frame : Notification → TrackedSend → Swept
last_frame f e = record { frames = f ∷ []; entry = e; done = true }

abbrev pub sweep_delivered : (SendStatus → Notification) → Option Verdict → TrackedSend → Swept
sweep_delivered frame none e = waiting e
sweep_delivered frame (some v) e = last_frame (frame (send_status v)) e

abbrev pub emitted : TrackedSend → TrackedSend
emitted e = record e { emitted_send_confirm = true }

-- A failed handoff is terminal; behind a successful one the verdict may follow at once.
abbrev pub sweep_handed_off : ℕ → SendProgress → Option Verdict → TrackedSend → Swept
sweep_handed_off id p none e = waiting e
sweep_handed_off id p (some (err x)) e =
    last_frame (Notification.send_confirm id (error_status x)) (emitted e)
sweep_handed_off id p (some (ok u)) e =
    let rest = sweep_delivered (Notification.aps_ack_confirm id) p.delivered (emitted e) in
    record rest { frames = Notification.send_confirm id SendStatus.success ∷ rest.frames }

unfoldable pub sweep_entry : ℕ → SendProgress → TrackedSend → Swept
sweep_entry id p e = elim e.confirm_kind [
  | ConfirmKind.unicast_no_ack ↦ sweep_delivered (Notification.send_confirm id) p.delivered e
  | ConfirmKind.broadcast ↦ sweep_delivered (Notification.broadcast_confirm id) p.delivered e
  | ConfirmKind.unicast_aps_ack ↦
      if e.emitted_send_confirm
      then sweep_delivered (Notification.aps_ack_confirm id) p.delivered e
      else sweep_handed_off id p p.handed_off e
]

pub record Sweep : Type 0 where
  pub entries : List (ℕ × TrackedSend)
  pub out : List Notification
  pub done : List ℕ

-- The loop over the entries; `status` is what each handle answers.
unfoldable pub sweep_entries : (ℕ → SendProgress) → List (ℕ × TrackedSend) → Sweep
sweep_entries status [] = record { entries = []; out = []; done = [] }
sweep_entries status ((id, e) ∷ es) =
    let rest = sweep_entries status es in
    let one = sweep_entry id (status e.handle) e in
    record {
      entries = (id, one.entry) ∷ rest.entries;
      out = one.frames ++ rest.out;
      done = if one.done then id ∷ rest.done else rest.done;
    }

unfoldable pub remove_done : SendTracker → List ℕ → SendTracker
remove_done t [] = t
remove_done t (id ∷ ids) = remove_done (FlatMap.remove t id).0 ids

unfoldable pub sweep : SendTracker → (ℕ → SendProgress) → SendTracker × List Notification
sweep t status =
    let s = sweep_entries status t.entries in
    (remove_done (record { entries = s.entries }) s.done, s.out)

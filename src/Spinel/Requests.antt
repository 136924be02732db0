-- ===== src/Spinel/Requests.antt =====
-- crates/ziggurat-spinel/src/lib.rs: the requests of `SpinelProtocol` that await a response, by their
-- transaction id. The map of senders is a sorted one; `W` stands for the sender of a response and `R`
-- for that of a property's updates, and what the code tries to send on them is a list of deliveries. A
-- sender that is dropped resolves its request. The receiver of unsolicited frames, which nothing
-- reads, is left out. A panic is `none`.
pub mod Ids
pub mod Calls
pub mod Kept
pub mod Answers
pub mod Matching
use mathlib.Core.Option
use ziggurat.Base.{
  ℕ, zero, suc, ◌+◌, ◌%◌, ◌≡◌, Bool, true, false, ◌&&◌, Option, none, some, List, [], ◌∷◌, ◌++◌,
  map, if◌then◌else◌, ltb, leb, ◌==◌, Result, ok, err,
}
use ziggurat.Base.Order.{nat_ord}
use ziggurat.FlatMap
use ziggurat.FlatMap.{FlatMap, values}
use ziggurat.Spinel.Packed.{SpinelFrameParsingError, packed_uint21_deserialize}
use ziggurat.Spinel.Frames.{
  SpinelHeader, SpinelFrame, is_property, is_status, is_reset, last_status, prop_value_is,
}

-- The fields of `SpinelProtocol` that requests and responses read and write.
pub record Requests (W R : Type 0) : Type 0 where
  pub next_tid : ℕ
  pub pending_frames : FlatMap ℕ W
  pub property_update_receivers : FlatMap ℕ R
  pub has_reset_receiver : Bool

pub data Delivery (W R : Type 0) : Type 0 where
  response : W → SpinelFrame → Delivery W R
  -- The sender is gone without a response.
  dropped : W → Delivery W R
  property_update : R → ℕ → List ℕ → Delivery W R
  reset : ℕ → Delivery W R

abbrev pub next_of : ℕ → ℕ
next_of tid = 1 + tid % 7

-- The loop from `tid` on; back at the first id, the assertion fails. The fuel is that of all seven.
unfoldable pub free_tid : {W : Type 0} → ℕ → FlatMap ℕ W → ℕ → ℕ → Option ℕ
free_tid zero pending first tid = none
free_tid (suc n) pending first tid =
    let rest = free_tid n pending first (next_of tid) in
    if FlatMap.contains_key pending tid
    then if next_of tid == first then none else rest
    else some tid

abbrev pub request_header : ℕ → SpinelHeader
request_header tid = record { flag = 2; network_link_id = 0; transaction_id = tid }

module _ {W R : Type 0} where
  -- `SpinelProtocol::new`.
  abbrev pub new : Requests W R
  new = record {
    next_tid = 1;
    pending_frames = FlatMap.new;
    property_update_receivers = FlatMap.new;
    has_reset_receiver = false;
  }

  unfoldable pub set_property_update_receiver : Requests W R → ℕ → R → Requests W R
  set_property_update_receiver s property_id receiver = record s {
    property_update_receivers = (FlatMap.insert s.property_update_receivers property_id receiver).0;
  }

  abbrev pub set_reset_notification_receiver : Requests W R → Requests W R
  set_reset_notification_receiver s = record s { has_reset_receiver = true }

  -- `waiter` is the sender of the channel that the call makes.
  unfoldable pub prepare_request :
      Requests W R → ℕ → List ℕ → W → Option (SpinelFrame × Requests W R)
  prepare_request s command_id payload waiter =
      Option.map
        (λ tid. (
          record { header = request_header tid; command_id = command_id; payload = payload },
          record s {
            next_tid = next_of tid;
            pending_frames = (FlatMap.insert s.pending_frames tid waiter).0;
          },
        ))
        (free_tid 7 s.pending_frames s.next_tid s.next_tid)

  abbrev pub drop_sender : Option W → List (Delivery W R)
  drop_sender none = []
  drop_sender (some waiter) = Delivery.dropped waiter ∷ []

  unfoldable pub cancel_request : Requests W R → ℕ → Requests W R × List (Delivery W R)
  cancel_request s tid =
      let (left, old) = FlatMap.remove s.pending_frames tid in
      (record s { pending_frames = left }, drop_sender old)

  unfoldable pub fail_all_pending_requests : Requests W R → Requests W R × List (Delivery W R)
  fail_all_pending_requests s =
      (record s { pending_frames = FlatMap.new }, map Delivery.dropped (values s.pending_frames))

  unfoldable pub notify_reset : Requests W R → ℕ → Requests W R × List (Delivery W R)
  notify_reset s status =
      let (t, out) = fail_all_pending_requests s in
      (t, out ++ (if s.has_reset_receiver then Delivery.reset status ∷ [] else []))

  abbrev pub on_status :
      Requests W R
      → Result (ℕ × List ℕ) SpinelFrameParsingError
      → Requests W R × List (Delivery W R)
  on_status s (err e) = (s, [])
  on_status s (ok (status, rest)) =
      if is_status status && is_reset status then notify_reset s status else (s, [])

  unfoldable pub handle_unsolicited_last_status :
      Requests W R → List ℕ → Requests W R × List (Delivery W R)
  handle_unsolicited_last_status s value = on_status s (packed_uint21_deserialize value)

  abbrev pub update : Option R → ℕ → List ℕ → List (Delivery W R)
  update none property_id value = []
  update (some receiver) property_id value =
      Delivery.property_update receiver property_id value ∷ []

  abbrev pub on_property :
      Requests W R
      → Result (ℕ × List ℕ) SpinelFrameParsingError
      → Requests W R × List (Delivery W R)
  on_property s (err e) = (s, [])
  on_property s (ok (property_id, value)) =
      if is_property property_id
      then if property_id == last_status
        then handle_unsolicited_last_status s value
        else (s, update (FlatMap.get s.property_update_receivers property_id) property_id value)
      else (s, [])

  abbrev pub respond : Option W → SpinelFrame → List (Delivery W R)
  respond none frame = []
  respond (some waiter) frame = Delivery.response waiter frame ∷ []

  unfoldable pub handle_inbound_frame :
      Requests W R → SpinelFrame → Requests W R × List (Delivery W R)
  handle_inbound_frame s f =
      let (left, old) = FlatMap.remove s.pending_frames f.header.transaction_id in
      if f.header.transaction_id == 0
      then if f.command_id == prop_value_is
        then on_property s (packed_uint21_deserialize f.payload)
        else (s, [])
      else (record s { pending_frames = left }, respond old f)

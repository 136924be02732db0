-- ===== src/Tests/Confirms.antt =====
-- Inputs for the theorems on confirm frames.
use ziggurat.Base.{ℕ, ◌≡◌, refl, none, [], ◌∷◌, if◌then◌else◌, ◌==◌, filterb, is_none, err}
use ziggurat.Base.Order.{nat_ord}
use ziggurat.FlatMap
use ziggurat.FlatMap.StaysSorted.{new-IsSorted}
use ziggurat.Protocol.SendTracker
use ziggurat.Protocol.SendTracker.{
  SendTracker, TrackedSend, ConfirmKind, SendProgress, DeliveryError, note_handed_off, settled,
  sweep,
}
use ziggurat.Protocol.SendTracker.Entries.{is_for}
use ziggurat.Protocol.SendTracker.Once.{sweep_all, Emitted, confirmed_once}
use ziggurat.Protocol.SendTracker.Progress.{resolved_retires}

abbrev unresolved : SendProgress
unresolved = record { handed_off = none; delivered = none }

-- The send with handle 7 is on the air, then its acknowledgment times out.
abbrev on_air : ℕ → SendProgress
on_air h = if h == 7 then note_handed_off unresolved else unresolved

abbrev over : ℕ → SendProgress
over h =
    if h == 7
    then settled (note_handed_off unresolved) (err DeliveryError.aps_ack_timeout)
    else unresolved

abbrev tracker : SendTracker
tracker = SendTracker.insert FlatMap.new 3 7 ConfirmKind.unicast_aps_ack

confirmed_once_example :
    Emitted 3 ConfirmKind.unicast_aps_ack
      (filterb (is_for 3) (sweep_all tracker (on_air ∷ over ∷ [])).1)
      (is_none (FlatMap.get (sweep_all tracker (on_air ∷ over ∷ [])).0 3))
confirmed_once_example =
    confirmed_once 3 FlatMap.new 7 ConfirmKind.unicast_aps_ack (on_air ∷ over ∷ [])
      (new-IsSorted ℕ TrackedSend)

resolved_retires_example : FlatMap.get (sweep (sweep_all tracker (on_air ∷ [])).0 over).0 3 ≡ none
unfolding note_handed_off settled
resolved_retires_example =
    resolved_retires 3 7 FlatMap.new ConfirmKind.unicast_aps_ack (on_air ∷ []) over
      (new-IsSorted ℕ TrackedSend) refl refl

-- ===== src/Spinel/Bytes/Answered.antt =====
-- The bytes of a response, and the request that it answers.
use mathlib.Core.Option
use mathlib.Core.List.{append-nil}
use ziggurat.Base.{ℕ, ◌≡◌, ap, ◌∙◌, true, some, List, [], ◌∷◌, ◌++◌}
use ziggurat.Spinel.Stream.Delivery.{Unflagged, synced, wire}
use ziggurat.Spinel.Frames.{SpinelFrame, frame_to_bytes}
use ziggurat.Spinel.Frames.RoundTrip.{Sendable}
use ziggurat.Spinel.Inbound.Chunks.{parse-wire}
use ziggurat.Spinel.Requests.{Requests, Delivery, prepare_request, handle_inbound_frame}
use ziggurat.Spinel.Requests.Calls.{IsValid}
use ziggurat.Spinel.Requests.Matching.{Quiet, response_matches}
use ziggurat.Spinel.Bytes.{handle_frames, handle_inbound_bytes}

module _ {W R : Type 0} (update_crc : List ℕ → ℕ) where
  -- With any checksum function, in a valid state of the requests: after a request was made and any
  -- calls that neither cancel it, nor are a frame under its transaction id, nor announce a reset,
  -- the framed bytes of a frame under its id, after noise without a flag, give a receiver that
  -- waits for a flag one delivery, that frame to the sender of that request, and nothing else; no
  -- bytes are left over.
  pub request_answered :
      (s : Requests W R) (command_id : ℕ) (payload : List ℕ) (waiter : W) (noise : List ℕ)
      (g : SpinelFrame) {f : SpinelFrame} {t u : Requests W R}
      → IsValid s
      → prepare_request s command_id payload waiter ≡ some (f, t)
      → Quiet f.header.transaction_id t u
      → Unflagged noise
      → Sendable g
      → g.header.transaction_id ≡ f.header.transaction_id
      → handle_inbound_bytes update_crc
          (record { buffer = []; ignoring_until_next_flag = true })
          u
          (noise ++ wire update_crc (frame_to_bytes g ∷ []))
        ≡ some (synced [], ((handle_inbound_frame u g).0, Delivery.response waiter g ∷ []))
  unfolding handle_inbound_bytes handle_frames
  request_answered s command_id payload waiter noise g {f} {t} {u} v made calls bare sent same =
      ap (Option.map (λ x. (x.0, handle_frames u x.1)))
        (parse-wire update_crc noise g [] bare sent tt)
      ∙ ap (λ out. some (synced [], ((handle_inbound_frame u g).0, out)))
          (append-nil (handle_inbound_frame u g).1
            ∙ response_matches s command_id payload waiter g v made calls same)

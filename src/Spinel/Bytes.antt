-- ===== src/Spinel/Bytes.antt =====
-- crates/ziggurat-spinel/src/lib.rs: `handle_inbound_bytes`, from the bytes of the serial port to the
-- deliveries. The two halves of `SpinelProtocol` are those of `Stream` and of `Requests`: reading
-- frames changes the one and handling them the other, so all frames are read first here.
pub mod Answered
use mathlib.Core.Option
use ziggurat.Base.{ℕ, ◌≡◌, Option, none, some, List, [], ◌∷◌, ◌++◌}
use ziggurat.Spinel.Stream.{SpinelProtocol}
use ziggurat.Spinel.Frames.{SpinelFrame}
use ziggurat.Spinel.Inbound.{parse_frames_from_bytes}
use ziggurat.Spinel.Requests.{Requests, Delivery, handle_inbound_frame}

module _ {W R : Type 0} where
  unfoldable pub handle_frames :
      Requests W R → List SpinelFrame → Requests W R × List (Delivery W R)
  handle_frames s [] = (s, [])
  handle_frames s (f ∷ fs) =
      let (t, out) = handle_inbound_frame s f in
      let (u, more) = handle_frames t fs in (u, out ++ more)

  -- A payload that is no frame is passed over; `none` is the end of the fuel.
  unfoldable pub handle_inbound_bytes :
      (List ℕ → ℕ)
      → SpinelProtocol
      → Requests W R
      → List ℕ
      → Option (SpinelProtocol × (Requests W R × List (Delivery W R)))
  handle_inbound_bytes update_crc p s bytes =
      Option.map (λ x. (x.0, handle_frames s x.1)) (parse_frames_from_bytes update_crc p bytes)

-- ===== src/Spinel/Inbound.antt =====
-- crates/ziggurat-spinel/src/lib.rs: `parse_frames_from_bytes`. A payload that is no frame is passed
-- over. `none` is the end of the fuel, of which there is enough.
pub mod Chunks
use mathlib.Core.Option
use ziggurat.Base.{ℕ, ◌+◌, ◌≡◌, Option, none, some, List, [], ◌∷◌, ◌++◌, length, Result, ok, err}
use ziggurat.Spinel.Stream.{SpinelProtocol, extend, received}
use ziggurat.Spinel.Packed.{SpinelFrameParsingError}
use ziggurat.Spinel.Frames.{SpinelFrame, frame_from_bytes}

abbrev pub push_frame :
    Result SpinelFrame SpinelFrameParsingError → List SpinelFrame → List SpinelFrame
push_frame (err e) frames = frames
push_frame (ok frame) frames = frame ∷ frames

unfoldable pub frames_in : List (List ℕ) → List SpinelFrame
frames_in [] = []
frames_in (payload ∷ payloads) = push_frame (frame_from_bytes payload) (frames_in payloads)

module _ (update_crc : List ℕ → ℕ) where
  unfoldable pub parse_frames_from_bytes :
      SpinelProtocol → List ℕ → Option (SpinelProtocol × List SpinelFrame)
  parse_frames_from_bytes p bytes =
      Option.map (λ x. (x.0, frames_in x.1))
        (received update_crc (length (p.buffer ++ bytes) + 1) (extend p bytes))

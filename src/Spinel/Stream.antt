-- ===== src/Spinel/Stream.antt =====
-- crates/ziggurat-spinel/src/lib.rs: the receiver's buffer and `next_frame_into`, which cuts it at the
-- flags. A frame's payload stands for the scratch buffer that it is written to. The loop is on fuel, and
-- `none` is the end of it: one more than the buffer's length is enough.
pub mod Delivery
pub mod Extended
pub mod Chunks
use ziggurat.Base.{
  ℕ, zero, suc, ◌+◌, ◌≡◌, Bool, true, false, ◌||◌, Option, none, some, List, [], ◌∷◌, ◌++◌,
  if◌then◌else◌, ltb, ◌==◌, length, Result, ok, err,
}
use ziggurat.Spinel.Hdlc.{HdlcLiteFrameParsingError, flag, hdlc_unescape, hdlc_escape}

-- The fields of `SpinelProtocol` that cutting frames reads and writes.
pub record SpinelProtocol : Type 0 where
  pub buffer : List ℕ
  pub ignoring_until_next_flag : Bool

-- `MAX_HDLC_BUFFER_SIZE`.
abbrev pub max_hdlc_buffer_size : ℕ
max_hdlc_buffer_size = 4096

-- `SpinelProtocol::new`.
abbrev pub new : SpinelProtocol
new = record { buffer = []; ignoring_until_next_flag = true }

-- `self.buffer.extend(bytes)`.
abbrev pub extend : SpinelProtocol → List ℕ → SpinelProtocol
extend p bytes = record p { buffer = p.buffer ++ bytes }

abbrev pub after_first : ℕ → Option (List ℕ × List ℕ) → Option (List ℕ × List ℕ)
after_first byte none = none
after_first byte (some (before, after)) = some (byte ∷ before, after)

-- The bytes before and after the first flag, at `position`.
unfoldable pub cut_at_flag : List ℕ → Option (List ℕ × List ℕ)
cut_at_flag [] = none
cut_at_flag (byte ∷ bytes) =
    let rest = cut_at_flag bytes in if byte == flag then some ([], bytes) else after_first byte rest

abbrev pub is_empty : List ℕ → Bool
is_empty [] = true
is_empty (byte ∷ bytes) = false

-- Without a flag: a buffer that is too long is thrown away.
abbrev pub without_flag : SpinelProtocol → SpinelProtocol
without_flag p = if ltb max_hdlc_buffer_size (length p.buffer) then new else p

-- `to_bytes_with_flags`.
module _ (update_crc : List ℕ → ℕ) where
  abbrev pub with_flags : List ℕ → List ℕ
  with_flags payload = flag ∷ hdlc_escape update_crc payload ++ flag ∷ []

  -- The payload of a valid frame, if these bytes are one that is not ignored.
  abbrev pub parsed : Result (List ℕ) HdlcLiteFrameParsingError → Option (List ℕ)
  parsed (err e) = none
  parsed (ok payload) = some payload

  abbrev pub parse : Bool → List ℕ → Option (List ℕ)
  parse ignoring frame =
      if ignoring || is_empty frame then none else parsed (hdlc_unescape update_crc frame)

  -- The receiver after the call, and the frame if there is one.
  unfoldable pub next_frame : ℕ → SpinelProtocol → Option (SpinelProtocol × Option (List ℕ))
  next_frame zero p = none
  next_frame (suc n) p = elim (cut_at_flag p.buffer) [
    | none ↦ some (without_flag p, none)
    | some (frame, rest) ↦ elim (parse p.ignoring_until_next_flag frame) [
      | some payload ↦
          some (record { buffer = rest; ignoring_until_next_flag = false }, some payload)
      | none ↦ next_frame n (record { buffer = rest; ignoring_until_next_flag = false })
    ]
  ]

  unfoldable pub next_frame_into : SpinelProtocol → Option (SpinelProtocol × Option (List ℕ))
  next_frame_into p = next_frame (length p.buffer + 1) p

  -- The loop over `next_frame_into`, with all payloads that it is given.
  unfoldable pub received : ℕ → SpinelProtocol → Option (SpinelProtocol × List (List ℕ))
  received zero p = none
  received (suc n) p = elim (next_frame_into p) [
    | none ↦ none
    | some (q, none) ↦ some (q, [])
    | some (q, some payload) ↦ elim (received n q) [
      | none ↦ none
      | some (r, payloads) ↦ some (r, payload ∷ payloads)
    ]
  ]

-- ===== src/Spinel/Inbound/Chunks.antt =====
-- Frames that arrive in reads of any size.
use mathlib.Core.Option
use mathlib.Core.List.{append_assoc}
use ziggurat.Base.{
  ℕ, ◌+◌, ◌<◌, ◌≤◌, ◌≡◌, refl, sym, ap, ◌∙◌, subst, some, List, [], ◌∷◌, ◌++◌, length, true,
  length-append, All, map, Result, ok, err, arith,
}
use ziggurat.Spinel.Packed.{SpinelFrameParsingError}
use ziggurat.Spinel.Stream.{SpinelProtocol, with_flags, extend, received, max_hdlc_buffer_size}
use ziggurat.Spinel.Stream.Delivery.{Unflagged, synced, wire, received-wire}
use ziggurat.Spinel.Stream.Chunks.{received-ends, received-append, received_more}
use ziggurat.Spinel.Frames.{SpinelFrame, frame_from_bytes, frame_to_bytes}
use ziggurat.Spinel.Frames.RoundTrip.{Sendable, parse-serialize}
use ziggurat.Spinel.Inbound.{push_frame, frames_in, parse_frames_from_bytes}

push_append :
    (r : Result SpinelFrame SpinelFrameParsingError) (xs ys : List SpinelFrame)
    → push_frame r (xs ++ ys) ≡ push_frame r xs ++ ys
push_append (err e) xs ys = refl
push_append (ok f) xs ys = refl

frames_append : (xs ys : List (List ℕ)) → frames_in (xs ++ ys) ≡ frames_in xs ++ frames_in ys
unfolding frames_in
frames_append [] ys = refl
frames_append (x ∷ xs) ys =
    ap (push_frame (frame_from_bytes x)) (frames_append xs ys)
    ∙ push_append (frame_from_bytes x) (frames_in xs) (frames_in ys)

frames_read_back :
    (fs : List SpinelFrame) → All Sendable fs → frames_in (map frame_to_bytes fs) ≡ fs
unfolding frames_in
frames_read_back [] a = refl
frames_read_back (f ∷ fs) a = rw (parse-serialize f a.0) (ap (λ x. f ∷ x) (frames_read_back fs a.1))

module _ (update_crc : List ℕ → ℕ) where
  parsed_run :
      (p r : SpinelProtocol) (bytes : List ℕ) (payloads : List (List ℕ))
      → received update_crc (length (p.buffer ++ bytes) + 1) (extend p bytes) ≡ some (r, payloads)
      → parse_frames_from_bytes update_crc p bytes ≡ some (r, frames_in payloads)
  unfolding parse_frames_from_bytes
  parsed_run p r bytes payloads e = ap (Option.map (λ x. (x.0, frames_in x.1))) e

  one_run :
      (p q r : SpinelProtocol) (first second : List ℕ) (payloads others : List (List ℕ)) (n m : ℕ)
      → length (p.buffer ++ first) ≤ max_hdlc_buffer_size
      → received update_crc n (extend p first) ≡ some (q, payloads)
      → received update_crc m (extend q second) ≡ some (r, others)
      → received update_crc
          (length (p.buffer ++ (first ++ second)) + 1)
          (extend p (first ++ second))
        ≡ some (r, payloads ++ others)
  one_run p q r first second payloads others n m b run again =
      let k = length (p.buffer ++ (first ++ second)) + 1 in
      let top = n + m + k in
      let (z, all, whole) = received-ends update_crc k (extend p (first ++ second)) (omega arith) in
      let joined =
        received-append update_crc n m top (extend p first) q r second payloads others b
          (omega arith) run again in
      let here =
        subst
          (λ x.
            received update_crc top
              (record { buffer = x; ignoring_until_next_flag = p.ignoring_until_next_flag })
            ≡ some (r, payloads ++ others))
          (append_assoc p.buffer first second) joined in
      whole
      ∙ sym (received_more update_crc k top (extend p (first ++ second)) z all (omega arith) whole)
      ∙ here

  -- With any checksum function, where the bytes held and those of a first read are at most 4096,
  -- two reads after each other parse the frames, in order, that one read of all the bytes parses,
  -- and leave the same state.
  pub parse-append :
      (p : SpinelProtocol) (first second : List ℕ)
      → length (p.buffer ++ first) ≤ max_hdlc_buffer_size
      → (q r : SpinelProtocol) × (frames others : List SpinelFrame) × (parse_frames_from_bytes
            update_crc p first
          ≡ some (q, frames))
        × (parse_frames_from_bytes update_crc q second ≡ some (r, others))
        × (parse_frames_from_bytes update_crc p (first ++ second) ≡ some (r, frames ++ others))
  parse-append p first second b =
      let n = length (p.buffer ++ first) + 1 in
      let (q, payloads, run) = received-ends update_crc n (extend p first) (omega arith) in
      let m = length (q.buffer ++ second) + 1 in
      let (r, others, again) = received-ends update_crc m (extend q second) (omega arith) in
      (
        q,
        r,
        frames_in payloads,
        frames_in others,
        parsed_run p q first payloads run,
        parsed_run q r second others again,
        parsed_run p r (first ++ second) (payloads ++ others)
              (one_run p q r first second payloads others n m b run again)
            ∙ ap (λ x. some (r, x)) (frames_append payloads others),
      )

  length-wire :
      (payload : List ℕ) (payloads : List (List ℕ))
      → length payloads < length (wire update_crc (payload ∷ payloads))
  length-wire payload [] = omega arith
  length-wire payload (p ∷ ps) = omega (
    arith,
    length-wire p ps,
    length-append (with_flags update_crc payload) (wire update_crc (p ∷ ps)),
  )

  -- With any checksum function, a receiver that waits for a flag and reads bytes without one, then
  -- the framed bytes of one or more frames whose header fields fit, whose flag is 0b10, whose
  -- command is known and whose payload is not empty, parses exactly these frames in order, and has
  -- no bytes left over.
  pub parse-wire :
      (noise : List ℕ) (f : SpinelFrame) (fs : List SpinelFrame)
      → Unflagged noise
      → Sendable f
      → All Sendable fs
      → parse_frames_from_bytes update_crc
          (record { buffer = []; ignoring_until_next_flag = true })
          (noise ++ wire update_crc (map frame_to_bytes (f ∷ fs)))
        ≡ some (synced [], f ∷ fs)
  parse-wire noise f fs u s ss =
      let payloads = map frame_to_bytes fs in
      let bytes = noise ++ wire update_crc (frame_to_bytes f ∷ payloads) in
      parsed_run (record { buffer = []; ignoring_until_next_flag = true }) (synced []) bytes
        (frame_to_bytes f ∷ payloads)
        (received-wire update_crc noise (frame_to_bytes f) payloads (length bytes + 1) u (
          omega (
            arith,
            length-append noise (wire update_crc (frame_to_bytes f ∷ payloads)),
            length-wire (frame_to_bytes f) payloads,
          )))
      ∙ ap (λ x. some (synced [], x)) (frames_read_back (f ∷ fs) (s, ss))

-- ===== src/Spinel/Stream/Delivery.antt =====
-- The frames of a stream arrive, from the first flag on.
use ziggurat.Base.{
  ℕ, zero, suc, ◌+◌, ◌≤◌, ◌<◌, ◌≡◌, refl, sym, ap, ◌∙◌, subst, Bool, true, false, Option, none,
  some, List, [], ◌∷◌, ◌++◌, ◌==◌, length, ok, arith, inl, inr, Bool-cases, Option-cases, All,
}
use mathlib.Core.Option.{some-injective, some-ne-none}
use mathlib.Core.List.{append_assoc}
use ziggurat.Spinel.Hdlc.{flag, hdlc_unescape, hdlc_escape, checksum, to_le_bytes}
use ziggurat.Spinel.Hdlc.RoundTrip.{escape-Unflagged, unescape-escape_frame}
use ziggurat.Spinel.Stream.{
  SpinelProtocol, cut_at_flag, without_flag, with_flags, parsed, parse, next_frame, next_frame_into,
  received,
}

-- No byte is a flag.
abbrev pub Unflagged : List ℕ → Type 0
Unflagged = All (λ b. (b == flag) ≡ false)

cut-append :
    (noise rest : List ℕ)
    → Unflagged noise
    → cut_at_flag (noise ++ flag ∷ rest) ≡ some (noise, rest)
unfolding cut_at_flag
cut-append [] rest u = refl
cut-append (b ∷ noise) rest u = rw (u.0, cut_at_flag, cut-append noise rest u.1) refl

pub cut_length :
    (bytes : List ℕ) {frame rest : List ℕ}
    → cut_at_flag bytes ≡ some (frame, rest)
    → length rest < length bytes
unfolding cut_at_flag
cut_length [] e = absurd (some-ne-none _ (sym e))
cut_length (b ∷ bytes) {frame} {rest} e = elim (Bool-cases (b == flag)) [
  | inl hit ↦
      let same = some-injective _ _ (rw (hit, cut_at_flag) at e) in
      subst (λ x. length x.1 < suc (length bytes)) same (omega arith)
  | inr other ↦ elim (Option-cases (cut_at_flag bytes)) [
    | inl bare ↦ absurd (some-ne-none _ (sym (rw (other, cut_at_flag, bare) at e)))
    | inr ((before, after), cut) ↦
        let same = some-injective _ _ (rw (other, cut_at_flag, cut) at e) in
        subst (λ x. length x.1 < suc (length bytes)) same (omega (arith, cut_length bytes cut))
  ]
]

abbrev pub synced : List ℕ → SpinelProtocol
synced bytes = record { buffer = bytes; ignoring_until_next_flag = false }

module _ (update_crc : List ℕ → ℕ) where
  skip :
      (n : ℕ) (ignoring : Bool) (noise rest : List ℕ)
      → Unflagged noise
      → parse update_crc ignoring noise ≡ none
      → next_frame update_crc
          (suc n)
          (record { buffer = noise ++ flag ∷ rest; ignoring_until_next_flag = ignoring })
        ≡ next_frame update_crc n (synced rest)
  unfolding next_frame
  skip n ignoring noise rest u e = rw (cut-append noise rest u, next_frame, e) refl

  parse-valid :
      (frame payload : List ℕ)
      → hdlc_unescape update_crc frame ≡ ok payload
      → parse update_crc false frame ≡ some payload
  unfolding hdlc_unescape
  parse-valid [] payload e = absurd (ground arith)
  parse-valid (b ∷ frame) payload e = ap (parsed update_crc) e

  escape_bare : (payload : List ℕ) → Unflagged (hdlc_escape update_crc payload)
  unfolding hdlc_escape
  escape_bare payload = escape-Unflagged (payload ++ to_le_bytes (checksum update_crc payload))

  hit :
      (n : ℕ) (frame payload rest : List ℕ)
      → Unflagged frame
      → parse update_crc false frame ≡ some payload
      → next_frame update_crc (suc n) (synced (frame ++ flag ∷ rest))
        ≡ some (synced rest, some payload)
  unfolding next_frame
  hit n frame payload rest u e = rw (cut-append frame rest u, next_frame, e) refl

  -- A longer run gives the same.
  pub next_frame_more :
      (n m : ℕ) (p : SpinelProtocol) {r : SpinelProtocol × Option (List ℕ)}
      → n ≤ m
      → next_frame update_crc n p ≡ some r
      → next_frame update_crc m p ≡ some r
  unfolding next_frame
  next_frame_more zero m p l e = absurd (some-ne-none _ (sym e))
  next_frame_more (suc n) zero p l e = absurd (omega arith)
  next_frame_more (suc n) (suc m) p {r} l e = elim (Option-cases (cut_at_flag p.buffer)) [
    | inl bare ↦ rw (bare, next_frame) (rw (bare, next_frame) at e)
    | inr ((frame, rest), cut) ↦
        elim (Option-cases (parse update_crc p.ignoring_until_next_flag frame)) [
          | inl nothing ↦
              rw (cut, next_frame, nothing)
                (next_frame_more n m (synced rest) (omega arith)
                  (rw (cut, next_frame, nothing) at e))
          | inr (payload, valid) ↦ rw (cut, next_frame, valid) (rw (cut, next_frame, valid) at e)
        ]
  ]

  ends :
      (n : ℕ) (p : SpinelProtocol)
      → length p.buffer < n
      → (r : SpinelProtocol × Option (List ℕ)) × (next_frame update_crc n p ≡ some r)
  unfolding next_frame
  ends zero p l = absurd (omega arith)
  ends (suc n) p l = elim (Option-cases (cut_at_flag p.buffer)) [
    | inl bare ↦ ((without_flag p, none), rw (bare, next_frame) refl)
    | inr ((frame, rest), cut) ↦
        elim (Option-cases (parse update_crc p.ignoring_until_next_flag frame)) [
          | inl nothing ↦
              let (r, run) = ends n (synced rest) (omega (arith, cut_length p.buffer cut)) in
              (r, rw (cut, next_frame, nothing) run)
          | inr (payload, valid) ↦ ((synced rest, some payload), rw (cut, next_frame, valid) refl)
        ]
  ]

  -- Where the fuel is above the length of the buffer, the search for the next frame ends, with the
  -- same result as with the fuel that the definition gives it.
  pub next_frame_into-ends :
      (n : ℕ) (p : SpinelProtocol)
      → length p.buffer < n
      → (r : SpinelProtocol × Option (List ℕ)) × (next_frame update_crc n p ≡ some r)
        × (next_frame_into update_crc p ≡ some r)
  unfolding next_frame_into
  next_frame_into-ends n p l =
      let (r, run) = ends (length p.buffer + 1) p (omega arith) in
      (r, next_frame_more (length p.buffer + 1) n p (omega arith) run, run)

  two_steps :
      (ignoring : Bool) (noise payload rest : List ℕ)
      → Unflagged noise
      → parse update_crc ignoring noise ≡ none
      → next_frame update_crc 2 (record {
        buffer = noise ++ flag ∷ (hdlc_escape update_crc payload ++ flag ∷ rest);
        ignoring_until_next_flag = ignoring;
      })
        ≡ some (synced rest, some payload)
  two_steps ignoring noise payload rest u e =
      let frame = hdlc_escape update_crc payload in
      skip 1 ignoring noise (frame ++ flag ∷ rest) u e
      ∙ hit 0 frame payload rest (escape_bare payload)
          (parse-valid frame payload (unescape-escape_frame update_crc payload))

  long_stream : (noise rest : List ℕ) → 2 ≤ length (noise ++ flag ∷ rest) + 1
  long_stream [] rest = omega arith
  long_stream (b ∷ noise) rest = omega (arith, long_stream noise rest)

  -- The next framed payload arrives, with nothing before its first flag that could be a frame.
  arrives :
      (ignoring : Bool) (noise payload rest : List ℕ)
      → Unflagged noise
      → parse update_crc ignoring noise ≡ none
      → next_frame_into update_crc (record {
        buffer = noise ++ (with_flags update_crc payload ++ rest);
        ignoring_until_next_flag = ignoring;
      })
        ≡ some (synced rest, some payload)
  unfolding next_frame_into
  arrives ignoring noise payload rest u e =
      let frame = hdlc_escape update_crc payload in
      subst
        (λ x.
          next_frame_into update_crc
            (record { buffer = noise ++ flag ∷ x; ignoring_until_next_flag = ignoring })
          ≡ some (synced rest, some payload))
        (sym (append_assoc frame (flag ∷ []) rest))
        (next_frame_more 2 _ _ (long_stream noise (frame ++ flag ∷ rest))
          (two_steps ignoring noise payload rest u e))

  -- The bytes of a sequence of frames.
  abbrev pub wire : List (List ℕ) → List ℕ
  wire [] = []
  wire (payload ∷ payloads) = with_flags update_crc payload ++ wire payloads

  drained : next_frame_into update_crc (synced []) ≡ some (synced [], none)
  unfolding next_frame_into next_frame cut_at_flag
  drained = refl

  in_sync :
      (payloads : List (List ℕ)) (n : ℕ)
      → length payloads < n
      → received update_crc n (synced (wire payloads)) ≡ some (synced [], payloads)
  unfolding received
  in_sync payloads zero l = absurd (omega arith)
  in_sync [] (suc n) l = rw (received, drained) refl
  in_sync (payload ∷ payloads) (suc n) l =
      rw
        (
          arrives false [] payload (wire payloads) tt refl,
          received,
          in_sync payloads n (omega arith),
        )
        refl

  -- With any checksum function, a receiver that ignores bytes until a flag and holds bytes without
  -- one, then the framed forms of one or more payloads, is given exactly these payloads in order,
  -- in any number of rounds above that of the payloads, and its buffer is empty after them.
  pub received-wire :
      (noise payload : List ℕ) (payloads : List (List ℕ)) (n : ℕ)
      → Unflagged noise
      → length payloads + 1 < n
      → received update_crc n
          (record { buffer = noise ++ wire (payload ∷ payloads); ignoring_until_next_flag = true })
        ≡ some (synced [], payload ∷ payloads)
  unfolding received
  received-wire noise payload payloads zero u l = absurd (omega arith)
  received-wire noise payload payloads (suc n) u l =
      rw
        (
          arrives true noise payload (wire payloads) u refl,
          received,
          in_sync payloads n (omega arith),
        )
        refl

-- ===== src/Spinel/Stream/Extended.antt =====
-- The search for a frame in a buffer, and in the same buffer with more bytes after it.
use ziggurat.Base.{
  ℕ, zero, suc, ◌≤◌, ◌≡◌, sym, ap, ◌∙◌, false, none, some, List, [], ◌∷◌, ◌++◌, ltb, ◌==◌, length,
  arith, inl, inr, Bool-cases, Option-cases,
}
use mathlib.Core.Option.{some-injective, some-ne-none}
use ziggurat.Spinel.Hdlc.{flag}
use ziggurat.Spinel.Stream.{
  SpinelProtocol, cut_at_flag, parse, next_frame, next_frame_into, max_hdlc_buffer_size, extend,
}
use ziggurat.Spinel.Stream.Delivery.{cut_length, next_frame_into-ends, synced}

cut_more :
    (bytes more : List ℕ) {frame rest : List ℕ}
    → cut_at_flag bytes ≡ some (frame, rest)
    → cut_at_flag (bytes ++ more) ≡ some (frame, rest ++ more)
unfolding cut_at_flag
cut_more [] more e = absurd (some-ne-none _ (sym e))
cut_more (b ∷ bytes) more {frame} {rest} e = elim (Bool-cases (b == flag)) [
  | inl hit ↦
      let same = some-injective _ _ (rw (hit, cut_at_flag) at e) in
      rw (hit, cut_at_flag) (ap (λ x. some (x.0, x.1 ++ more)) same)
  | inr other ↦ elim (Option-cases (cut_at_flag bytes)) [
    | inl bare ↦ absurd (some-ne-none _ (sym (rw (other, cut_at_flag, bare) at e)))
    | inr ((before, after), cut) ↦
        let same = some-injective _ _ (rw (other, cut_at_flag, cut) at e) in
        rw (other, cut_at_flag, cut_more bytes more cut) (ap (λ x. some (x.0, x.1 ++ more)) same)
  ]
]

module _ (update_crc : List ℕ → ℕ) where
  -- One round of the search, if it goes on.
  next_round :
      (p : SpinelProtocol) {frame rest : List ℕ}
      → cut_at_flag p.buffer ≡ some (frame, rest)
      → parse update_crc p.ignoring_until_next_flag frame ≡ none
      → next_frame_into update_crc p ≡ next_frame_into update_crc (synced rest)
  unfolding next_frame
  next_round p {frame} {rest} cut e =
      let (r, run, whole) =
        next_frame_into-ends update_crc (suc (length p.buffer)) p (omega arith) in
      let (s, again, rest_whole) =
        next_frame_into-ends update_crc (length p.buffer) (synced rest) (cut_length p.buffer cut) in
      whole ∙ sym run ∙ rw (cut, next_frame, e) again ∙ sym rest_whole

  -- A frame that is found is found with more bytes, which are left over.
  pub found_more :
      (n : ℕ) (p q : SpinelProtocol) (more payload : List ℕ)
      → next_frame update_crc n p ≡ some (q, some payload)
      → next_frame update_crc n (extend p more) ≡ some (extend q more, some payload)
  unfolding next_frame
  found_more zero p q more payload e = absurd (some-ne-none _ (sym e))
  found_more (suc n) p q more payload e = elim (Option-cases (cut_at_flag p.buffer)) [
    | inl bare ↦ absurd (
        some-ne-none payload
          (sym (ap (λ x. x.1) (some-injective _ _ (rw (bare, next_frame) at e)))))
    | inr ((frame, rest), cut) ↦
        elim (Option-cases (parse update_crc p.ignoring_until_next_flag frame)) [
          | inl nothing ↦
              rw (cut_more p.buffer more cut, next_frame, nothing)
                (found_more n (synced rest) q more payload (rw (cut, next_frame, nothing) at e))
          | inr (payload', valid) ↦
              rw (cut_more p.buffer more cut, next_frame, valid)
                (ap (λ x. some (extend x.0 more, x.1))
                  (some-injective _ _ (rw (cut, next_frame, valid) at e)))
        ]
  ]

  -- Where no frame is found, the search goes on from what is left.
  pub missed_more :
      (n : ℕ) (p q : SpinelProtocol) (more : List ℕ)
      → length p.buffer ≤ max_hdlc_buffer_size
      → next_frame update_crc n p ≡ some (q, none)
      → next_frame_into update_crc (extend p more) ≡ next_frame_into update_crc (extend q more)
  unfolding next_frame
  missed_more zero p q more l e = absurd (some-ne-none _ (sym e))
  missed_more (suc n) p q more l e = elim (Option-cases (cut_at_flag p.buffer)) [
    | inl bare ↦
        let short : ltb max_hdlc_buffer_size (length p.buffer) ≡ false = ground (arith, l) in
        let same = ap (λ x. x.0) (some-injective _ _ (rw (bare, next_frame, short) at e)) in
        ap (λ x. next_frame_into update_crc (extend x more)) same
    | inr ((frame, rest), cut) ↦
        elim (Option-cases (parse update_crc p.ignoring_until_next_flag frame)) [
          | inl nothing ↦
              next_round (extend p more) (cut_more p.buffer more cut) nothing
              ∙ missed_more n (synced rest) q more (omega (arith, cut_length p.buffer cut))
                  (rw (cut, next_frame, nothing) at e)
          | inr (payload, valid) ↦ absurd (
              some-ne-none payload
                (ap (λ x. x.1) (some-injective _ _ (rw (cut, next_frame, valid) at e))))
        ]
  ]

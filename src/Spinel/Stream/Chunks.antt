-- ===== src/Spinel/Stream/Chunks.antt =====
-- The frames of a stream do not depend on how its bytes are divided into reads.
use ziggurat.Base.{
  ℕ, zero, suc, ◌+◌, ◌≤◌, ◌<◌, ◌≡◌, ◌⊎◌, refl, sym, ap, ◌∙◌, subst, none, some, List, [], ◌∷◌, ◌++◌,
  length, length-append, arith, inl, inr, Option-cases,
}
use mathlib.Core.Option.{some-injective, some-ne-none}
use ziggurat.Spinel.Stream.{
  SpinelProtocol, cut_at_flag, parse, next_frame, next_frame_into, received, max_hdlc_buffer_size,
  extend,
}
use ziggurat.Spinel.Stream.Delivery.{cut_length, next_frame_more, next_frame_into-ends, synced}
use ziggurat.Spinel.Stream.Extended.{found_more, missed_more}

module _ (update_crc : List ℕ → ℕ) where
  -- What a run of the loop is made of: the last search, or a frame and the rest of the run.
  Rounds : ℕ → SpinelProtocol → SpinelProtocol → List (List ℕ) → Type 0
  Rounds n p r payloads =
      ((next_frame_into update_crc p ≡ some (r, none)) × (payloads ≡ []))
      ⊎ ((q : SpinelProtocol) × (payload : List ℕ) × (rest : List (List ℕ)) × (next_frame_into
              update_crc p
            ≡ some (q, some payload))
          × (received update_crc n q ≡ some (r, rest))
          × (payloads ≡ payload ∷ rest))

  rounds :
      (n : ℕ) (p r : SpinelProtocol) (payloads : List (List ℕ))
      → received update_crc (suc n) p ≡ some (r, payloads)
      → Rounds n p r payloads
  unfolding received Rounds
  rounds n p r payloads e = elim (Option-cases (next_frame_into update_crc p)) [
    | inl none_left ↦ absurd (some-ne-none _ (sym (rw (none_left, received) at e)))
    | inr ((q, none), run) ↦
        let same = some-injective _ _ (rw (run, received) at e) in
        inl (run ∙ ap (λ x. some (x.0, none)) same, sym (ap (λ x. x.1) same))
    | inr ((q, some payload), run) ↦ elim (Option-cases (received update_crc n q)) [
      | inl stuck ↦ absurd (some-ne-none _ (sym (rw (run, received, stuck) at e)))
      | inr ((v, rest), again) ↦
          let same = some-injective _ _ (rw (run, received, again) at e) in
          inr (
            q,
            payload,
            rest,
            run,
            again ∙ ap (λ x. some (x.0, rest)) same,
            sym (ap (λ x. x.1) same),
          )
    ]
  ]

  last_round :
      (n : ℕ) (p r : SpinelProtocol)
      → next_frame_into update_crc p ≡ some (r, none)
      → received update_crc (suc n) p ≡ some (r, [])
  unfolding received
  last_round n p r e = rw (e, received) refl

  first_round :
      (n : ℕ) (p q r : SpinelProtocol) (payload : List ℕ) (rest : List (List ℕ))
      → next_frame_into update_crc p ≡ some (q, some payload)
      → received update_crc n q ≡ some (r, rest)
      → received update_crc (suc n) p ≡ some (r, payload ∷ rest)
  unfolding received
  first_round n p q r payload rest e run = rw (e, received, run) refl

  -- A longer run gives the same.
  pub received_more :
      (n m : ℕ) (p r : SpinelProtocol) (payloads : List (List ℕ))
      → n ≤ m
      → received update_crc n p ≡ some (r, payloads)
      → received update_crc m p ≡ some (r, payloads)
  unfolding received Rounds
  received_more zero m p r payloads l e = absurd (some-ne-none _ (sym e))
  received_more (suc n) zero p r payloads l e = absurd (omega arith)
  received_more (suc n) (suc m) p r payloads l e = elim (rounds n p r payloads e) [
    | inl (done, empty) ↦ rw empty (last_round m p r done)
    | inr (q, payload, rest, found, run, same) ↦
        rw same
          (first_round m p q r payload rest found (received_more n m q r rest (omega arith) run))
  ]

  shrinks :
      (n : ℕ) (p q : SpinelProtocol) (payload : List ℕ)
      → next_frame update_crc n p ≡ some (q, some payload)
      → length q.buffer < length p.buffer
  unfolding next_frame
  shrinks zero p q payload e = absurd (some-ne-none _ (sym e))
  shrinks (suc n) p q payload e = elim (Option-cases (cut_at_flag p.buffer)) [
    | inl bare ↦ absurd (
        some-ne-none payload
          (sym (ap (λ x. x.1) (some-injective _ _ (rw (bare, next_frame) at e)))))
    | inr ((frame, rest), cut) ↦
        elim (Option-cases (parse update_crc p.ignoring_until_next_flag frame)) [
          | inl nothing ↦ omega (
            arith,
            cut_length p.buffer cut,
            shrinks n (synced rest) q payload (rw (cut, next_frame, nothing) at e),
          )
          | inr (other, valid) ↦
              let same = ap (λ x. x.0) (some-injective _ _ (rw (cut, next_frame, valid) at e)) in
              subst (λ x. length x.buffer < length p.buffer) same (cut_length p.buffer cut)
        ]
  ]

  shrinks_into :
      (p q : SpinelProtocol) (payload : List ℕ)
      → next_frame_into update_crc p ≡ some (q, some payload)
      → length q.buffer < length p.buffer
  unfolding next_frame_into
  shrinks_into p q payload e = shrinks (length p.buffer + 1) p q payload e

  -- The loop ends, in no more rounds than there are bytes and one.
  pub received-ends :
      (n : ℕ) (p : SpinelProtocol)
      → length p.buffer < n
      → (r : SpinelProtocol) × (payloads : List (List ℕ)) × (received update_crc n p
          ≡ some (r, payloads))
  received-ends zero p l = absurd (omega arith)
  received-ends (suc n) p l =
      let (r, run, whole) = next_frame_into-ends update_crc (length p.buffer + 1) p (omega arith) in
      elim (Option-cases r.1) [
        | inl done ↦ (r.0, [], last_round n p r.0 (whole ∙ ap (λ x. some (r.0, x)) done))
        | inr (payload, more) ↦
            let found = whole ∙ ap (λ x. some (r.0, x)) more in
            let (s, rest, again) =
              received-ends n r.0 (omega (arith, shrinks_into p r.0 payload found)) in
            (s, payload ∷ rest, first_round n p r.0 s payload rest found again)
      ]

  found_into :
      (p q : SpinelProtocol) (more payload : List ℕ)
      → next_frame_into update_crc p ≡ some (q, some payload)
      → next_frame_into update_crc (extend p more) ≡ some (extend q more, some payload)
  unfolding next_frame_into
  found_into p q more payload e =
      next_frame_more update_crc (length p.buffer + 1) (length (p.buffer ++ more) + 1)
        (extend p more) (omega (arith, length-append p.buffer more))
        (found_more update_crc (length p.buffer + 1) p q more payload e)

  missed_into :
      (p q : SpinelProtocol) (more : List ℕ)
      → length p.buffer ≤ max_hdlc_buffer_size
      → next_frame_into update_crc p ≡ some (q, none)
      → next_frame_into update_crc (extend p more) ≡ next_frame_into update_crc (extend q more)
  missed_into p q more l e =
      let (r, run, whole) =
        next_frame_into-ends update_crc (suc (length p.buffer)) p (omega arith) in
      missed_more update_crc (suc (length p.buffer)) p q more l (run ∙ sym whole ∙ e)

  same_search :
      (k : ℕ) (p q : SpinelProtocol)
      → next_frame_into update_crc p ≡ next_frame_into update_crc q
      → received update_crc (suc k) p ≡ received update_crc (suc k) q
  unfolding received
  same_search k p q e = rw (e, received) refl

  -- A run on some bytes, and a run from where it ends on more, are one run on all of them.
  pub received-append :
      (n m k : ℕ) (p q r : SpinelProtocol) (more : List ℕ) (payloads others : List (List ℕ))
      → length p.buffer ≤ max_hdlc_buffer_size
      → n + m ≤ k
      → received update_crc n p ≡ some (q, payloads)
      → received update_crc m (extend q more) ≡ some (r, others)
      → received update_crc k (extend p more) ≡ some (r, payloads ++ others)
  unfolding received Rounds
  received-append zero m k p q r more payloads others b l e f = absurd (some-ne-none _ (sym e))
  received-append (suc n) m zero p q r more payloads others b l e f = absurd (omega arith)
  received-append (suc n) m (suc k) p q r more payloads others b l e f =
      elim (rounds n p q payloads e) [
        | inl (done, empty) ↦ rw empty (
            same_search k (extend p more) (extend q more) (missed_into p q more b done)
            ∙ received_more m (suc k) (extend q more) r others (omega arith) f)
        | inr (v, payload, rest, found, run, same) ↦ rw same (
            first_round k (extend p more) (extend v more) r payload (rest ++ others)
              (found_into p v more payload found)
              (received-append n m k v q r more rest others
                (omega (arith, shrinks_into p v payload found)) (omega arith) run f))
      ]

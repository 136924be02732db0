-- ===== src/Spinel/Requests/Matching.antt =====
-- Which request a response goes to, and when a request cannot be made.
use mathlib.Core.Option.{some-injective, some-ne-none}
use ziggurat.Base.{
  ℕ, ◌≤◌, ◌≡◌, ◌↔◌, refl, sym, ap, ◌∙◌, subst, Bool, true, false, ◌&&◌, none, some, List, [], ◌∷◌,
  if◌then◌else◌, ◌==◌, Result, ok, err, arith, inl, inr, Bool-cases, Option-cases,
}
use ziggurat.Base.Order.{nat_ord}
use ziggurat.FlatMap.{get, contains_key}
use ziggurat.FlatMap.Sorted.{remove_old}
use ziggurat.FlatMap.Laws.{get-remove}
use ziggurat.Spinel.Packed.{SpinelFrameParsingError, packed_uint21_deserialize}
use ziggurat.Spinel.Frames.{
  SpinelFrame, is_property, is_status, is_reset, last_status, prop_value_is,
}
use ziggurat.Spinel.Requests.{
  Requests, Delivery, free_tid, prepare_request, cancel_request, on_status,
  handle_unsolicited_last_status, on_property, handle_inbound_frame,
}
use ziggurat.Spinel.Requests.Ids.{free_tid-lem}
use ziggurat.Spinel.Requests.Calls.{Event, step, IsValid}
use ziggurat.Spinel.Requests.Kept.{prepared, step-Keeps}

-- The announcement of a reset.
abbrev pub announces : Result (ℕ × List ℕ) SpinelFrameParsingError → Bool
announces (err e) = false
announces (ok (status, rest)) = is_status status && is_reset status

abbrev pub announces_in : Result (ℕ × List ℕ) SpinelFrameParsingError → Bool
announces_in (err e) = false
announces_in (ok (property_id, value)) =
    property_id == last_status && announces (packed_uint21_deserialize value)

-- What ends the wait of an id: its cancellation, a frame under it, or a reset.
abbrev pub ends_wait : {W : Type 0} → ℕ → Event W → Bool
ends_wait tid (Event.prepare command_id payload waiter) = false
ends_wait tid (Event.cancel other) = other == tid
ends_wait tid (Event.inbound f) =
    if f.header.transaction_id == 0
    then f.command_id == prop_value_is && announces_in (packed_uint21_deserialize f.payload)
    else f.header.transaction_id == tid

module _ {W R : Type 0} where
  on_status_quiet :
      (s : Requests W R) (r : Result (ℕ × List ℕ) SpinelFrameParsingError)
      → announces r ≡ false
      → (on_status s r).0 ≡ s
  on_status_quiet s (err e) q = refl
  on_status_quiet s (ok (status, rest)) q = rw q refl

  on_property_quiet :
      (s : Requests W R) (r : Result (ℕ × List ℕ) SpinelFrameParsingError)
      → announces_in r ≡ false
      → (on_property s r).0 ≡ s
  unfolding handle_unsolicited_last_status
  on_property_quiet s (err e) q = refl
  on_property_quiet s (ok (id, value)) q = elim (Bool-cases (is_property id)) [
    | inr isnt ↦ rw isnt refl
    | inl is ↦ elim (Bool-cases (id == last_status)) [
      | inl status ↦
          rw (is, status) (on_status_quiet s (packed_uint21_deserialize value) (rw status at q))
      | inr other ↦ rw (is, other) refl
    ]
  ]

  -- A call that does not end the wait of an id leaves its request.
  step_awaits :
      (s : Requests W R) (e : Event W) (tid : ℕ) (waiter : W) {t : Requests W R}
      {out : List (Delivery W R)}
      → IsValid s
      → get s.pending_frames tid ≡ some waiter
      → ends_wait tid e ≡ false
      → step s e ≡ some (t, out)
      → get t.pending_frames tid ≡ some waiter
  unfolding step cancel_request handle_inbound_frame
  step_awaits s (Event.prepare command_id payload other) tid waiter {t} {out} v g q e =
      elim (Option-cases (prepare_request s command_id payload other)) [
        | inl panic ↦ absurd (some-ne-none (t, out) (sym (rw (panic, step) at e)))
        | inr ((f, u), made) ↦
            let same = some-injective _ _ (rw (made, step) at e) in
            let (low, unused, mine, others, keeps) = prepared s command_id payload other v made in
            subst (λ z. get z.0.pending_frames tid ≡ some waiter) same (others tid waiter g)
      ]
  step_awaits s (Event.cancel other) tid waiter v g q e =
      subst (λ z. get z.0.pending_frames tid ≡ some waiter) (some-injective _ _ e)
        (get-remove s.pending_frames other tid v.sorted ∙ ground (arith, g, q))
  step_awaits s (Event.inbound f) tid waiter v g q e =
      subst (λ z. get z.0.pending_frames tid ≡ some waiter) (some-injective _ _ e)
        (elim (Bool-cases (f.header.transaction_id == 0)) [
          | inl unsolicited ↦ elim (Bool-cases (f.command_id == prop_value_is)) [
            | inr isnt ↦ rw (unsolicited, isnt) g
            | inl is ↦
                rw (unsolicited, is)
                  (ap (λ z. get z.pending_frames tid)
                      (on_property_quiet s (packed_uint21_deserialize f.payload)
                        (rw (unsolicited, is) at q))
                    ∙ g)
          ]
          | inr answer ↦ rw answer (
              get-remove s.pending_frames f.header.transaction_id tid v.sorted
              ∙ ground (arith, g, rw answer at q))
        ])

  -- Calls that follow each other and do not panic, none of which ends the wait of an id.
  pub data Quiet (tid : ℕ) : Requests W R → Requests W R → Type 0 where
    stay : {s : Requests W R} → Quiet tid s s
    then_call :
        {s t u : Requests W R} {out : List (Delivery W R)}
        → Quiet tid s t
        → (e : Event W) → ends_wait tid e ≡ false
        → step t e ≡ some (u, out)
        → Quiet tid s u

  still_awaited :
      {tid : ℕ} {s t : Requests W R}
      → Quiet tid s t
      → (waiter : W) → IsValid s
      → get s.pending_frames tid ≡ some waiter
      → IsValid t × (get t.pending_frames tid ≡ some waiter)
  still_awaited Quiet.stay waiter v g = (v, g)
  still_awaited {tid} (Quiet.then_call {t = t} calls e q run) waiter v g =
      let (valid, here) = still_awaited calls waiter v g in
      ((step-Keeps t e valid run).valid, step_awaits t e tid waiter valid here q run)

  answer :
      (s : Requests W R) (g : SpinelFrame) (waiter : W)
      → (g.header.transaction_id == 0) ≡ false
      → get s.pending_frames g.header.transaction_id ≡ some waiter
      → (handle_inbound_frame s g).1 ≡ Delivery.response waiter g ∷ []
  unfolding handle_inbound_frame
  answer s g waiter z e = rw (z, remove_old s.pending_frames g.header.transaction_id, e) refl

  -- The frame under the id of a request that is still awaited goes to its sender.
  pub response_matches :
      (s : Requests W R) (command_id : ℕ) (payload : List ℕ) (waiter : W) (g : SpinelFrame)
      {f : SpinelFrame} {t u : Requests W R}
      → IsValid s
      → prepare_request s command_id payload waiter ≡ some (f, t)
      → Quiet f.header.transaction_id t u
      → g.header.transaction_id ≡ f.header.transaction_id
      → (handle_inbound_frame u g).1 ≡ Delivery.response waiter g ∷ []
  response_matches s command_id payload waiter g {f} {t} {u} v made calls same =
      let (low, unused, mine, others, keeps) = prepared s command_id payload waiter v made in
      let (valid, here) = still_awaited calls waiter keeps.valid mine in
      answer u g waiter (ground (arith, low, same)) (rw same here)

  -- In a valid state, making a request panics exactly if all of the transaction ids 1 to 7 are
  -- pending, whatever the next id is.
  pub prepare_request_panics :
      (s : Requests W R) (command_id : ℕ) (payload : List ℕ) (waiter : W)
      → IsValid s
      → (prepare_request s command_id payload waiter ≡ none)
        ↔ ((tid : ℕ) → 1 ≤ tid → tid ≤ 7 → contains_key s.pending_frames tid ≡ true)
  unfolding prepare_request
  prepare_request_panics s command_id payload waiter v =
      let (free, none_free) = free_tid-lem s.pending_frames s.next_tid v.first v.last in
      elim (Option-cases (free_tid 7 s.pending_frames s.next_tid s.next_tid)) [
        | inl panic ↦ (λ e. none_free panic, λ all. rw panic refl)
        | inr (tid, found) ↦ (
          λ e. absurd (some-ne-none _ (rw (found, prepare_request) at e)),
          λ all.
              let (low, high, unused) = free tid found in
              absurd (ground (arith, all tid low high, unused)),
        )
      ]

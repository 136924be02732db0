-- ===== src/Spinel/Requests/Kept.antt =====
-- The calls of requests in crates/ziggurat-spinel/src/lib.rs, one by one: validity and the senders.
use mathlib.Core.Option.{some-injective, some-ne-none}
use ziggurat.Base.{
  ℕ, ◌≤◌, ◌≡◌, refl, sym, subst, ◌&&◌, none, some, List, [], ◌∷◌, if◌then◌else◌, ◌==◌, Result, ok,
  err, arith, inl, inr, Bool-cases, Option-cases,
}
use ziggurat.Base.Order.{nat_ord}
use ziggurat.FlatMap
use ziggurat.FlatMap.{FlatMap, get, contains_key, values}
use ziggurat.FlatMap.Sorted.{remove_old, contains_key-eq}
use ziggurat.FlatMap.StaysSorted.{insert-IsSorted, new-IsSorted}
use ziggurat.FlatMap.Laws.{get-insert}
use ziggurat.FlatMap.Everywhere.{get-insert_self}
use ziggurat.FlatMap.Totals.{total, total_of, total-insert}
use ziggurat.Spinel.Packed.{SpinelFrameParsingError, packed_uint21_deserialize}
use ziggurat.Spinel.Frames.{
  SpinelFrame, is_property, is_status, is_reset, last_status, prop_value_is,
}
use ziggurat.Spinel.Requests.{
  Requests, Delivery, free_tid, prepare_request, cancel_request, drop_sender,
  fail_all_pending_requests, notify_reset, on_status, handle_unsolicited_last_status, on_property,
  respond, handle_inbound_frame,
}
use ziggurat.Spinel.Requests.Ids.{free_tid-lem}
use ziggurat.Spinel.Requests.Calls.{
  Event, admitted, step, finished, IsValid, Keeps, finished_all, removed, unchanged, reset_weight,
  update_weight,
}

module _ {W R : Type 0} where
  cancel_request-Keeps :
      (s : Requests W R) (tid : ℕ)
      → IsValid s
      → Keeps s (cancel_request s tid).0 (cancel_request s tid).1 (λ x. 0)
  unfolding cancel_request finished
  cancel_request-Keeps s tid v =
      removed s tid (drop_sender (FlatMap.remove s.pending_frames tid).1) v
        (λ x w e. rw (remove_old s.pending_frames tid, e) (omega arith))
        (λ x e. rw (remove_old s.pending_frames tid, e) refl)

  notify_reset-Keeps :
      (s : Requests W R) (status : ℕ)
      → IsValid s
      → Keeps s (notify_reset s status).0 (notify_reset s status).1 (λ x. 0)
  unfolding notify_reset fail_all_pending_requests values total total_of FlatMap.new
  notify_reset-Keeps s status v = record {
    valid = record { sorted = new-IsSorted ℕ W; first = v.first; last = v.last };
    conserved = λ x.
        let told : List (Delivery W R) =
          if s.has_reset_receiver then Delivery.reset status ∷ [] else [] in
        omega (arith, finished_all x s.pending_frames.entries told, reset_weight x s status);
  }

  on_status-Keeps :
      (s : Requests W R) (r : Result (ℕ × List ℕ) SpinelFrameParsingError)
      → IsValid s
      → Keeps s (on_status s r).0 (on_status s r).1 (λ x. 0)
  on_status-Keeps s (err e) v = unchanged s v
  on_status-Keeps s (ok (status, rest)) v =
      elim (Bool-cases (is_status status && is_reset status)) [
        | inl is ↦ rw is (notify_reset-Keeps s status v)
        | inr isnt ↦ rw isnt (unchanged s v)
      ]

  on_property-Keeps :
      (s : Requests W R) (r : Result (ℕ × List ℕ) SpinelFrameParsingError)
      → IsValid s
      → Keeps s (on_property s r).0 (on_property s r).1 (λ x. 0)
  unfolding handle_unsolicited_last_status
  on_property-Keeps s (err e) v = unchanged s v
  on_property-Keeps s (ok (id, value)) v = elim (Bool-cases (is_property id)) [
    | inr isnt ↦ rw isnt (unchanged s v)
    | inl is ↦ elim (Bool-cases (id == last_status)) [
      | inl status ↦ rw (is, status) (on_status-Keeps s (packed_uint21_deserialize value) v)
      | inr other ↦
          rw (is, other)
            (record {
              valid = v;
              conserved =
                  λ x. omega (arith, update_weight x (get s.property_update_receivers id) id value);
            })
    ]
  ]

  handle_inbound_frame-Keeps :
      (s : Requests W R) (f : SpinelFrame)
      → IsValid s
      → Keeps s (handle_inbound_frame s f).0 (handle_inbound_frame s f).1 (λ x. 0)
  unfolding handle_inbound_frame finished
  handle_inbound_frame-Keeps s f v = elim (Bool-cases (f.header.transaction_id == 0)) [
    | inl unsolicited ↦ elim (Bool-cases (f.command_id == prop_value_is)) [
      | inl is ↦ rw (unsolicited, is) (on_property-Keeps s (packed_uint21_deserialize f.payload) v)
      | inr isnt ↦ rw (unsolicited, isnt) (unchanged s v)
    ]
    | inr answer ↦
        let tid = f.header.transaction_id in
        rw answer (
          removed s tid (respond (FlatMap.remove s.pending_frames tid).1 f) v
            (λ x w e. rw (remove_old s.pending_frames tid, e) (omega arith))
            (λ x e. rw (remove_old s.pending_frames tid, e) refl))
  ]

  -- A request is made under an id that was free.
  pub prepared :
      (s : Requests W R) (command_id : ℕ) (payload : List ℕ) (waiter : W) {f : SpinelFrame}
      {t : Requests W R}
      → IsValid s
      → prepare_request s command_id payload waiter ≡ some (f, t)
      → (1 ≤ f.header.transaction_id)
        × (get s.pending_frames f.header.transaction_id ≡ none)
        × (get t.pending_frames f.header.transaction_id ≡ some waiter)
        × ((j : ℕ) (w : W) → get s.pending_frames j ≡ some w → get t.pending_frames j ≡ some w)
        × Keeps s t [] (λ x. x waiter)
  unfolding prepare_request finished
  prepared s command_id payload waiter {f} {t} v e =
      elim (Option-cases (free_tid 7 s.pending_frames s.next_tid s.next_tid)) [
        | inl panic ↦ absurd (some-ne-none (f, t) (sym (rw (panic, prepare_request) at e)))
        | inr (tid, found) ↦
            let (low, high, free) =
              (free_tid-lem s.pending_frames s.next_tid v.first v.last).0 tid found in
            let same = some-injective _ _ (rw (found, prepare_request) at e) in
            let unused : get s.pending_frames tid ≡ none =
              ground (arith, contains_key-eq s.pending_frames tid, free) in
            subst
              (λ z.
                (1 ≤ z.0.header.transaction_id)
                × (get s.pending_frames z.0.header.transaction_id ≡ none)
                × (get z.1.pending_frames z.0.header.transaction_id ≡ some waiter)
                × ((j : ℕ) (w : W)
                    → get s.pending_frames j ≡ some w
                    → get z.1.pending_frames j ≡ some w)
                × Keeps s z.1 [] (λ x. x waiter))
              same
              (
                low,
                unused,
                get-insert_self s.pending_frames tid waiter,
                λ j w h. ground (arith, get-insert s.pending_frames tid j waiter, unused, h),
                record {
                  valid = record {
                    sorted = insert-IsSorted s.pending_frames tid waiter v.sorted;
                    first = omega arith;
                    last = omega arith;
                  };
                  conserved = λ x. omega (arith, total-insert x s.pending_frames tid waiter unused);
                },
              )
      ]

  pub step-Keeps :
      (s : Requests W R) (e : Event W) {t : Requests W R} {out : List (Delivery W R)}
      → IsValid s
      → step s e ≡ some (t, out)
      → Keeps s t out (λ x. admitted x e)
  unfolding step
  step-Keeps s (Event.prepare command_id payload waiter) {t} {out} v e =
      elim (Option-cases (prepare_request s command_id payload waiter)) [
        | inl panic ↦ absurd (some-ne-none (t, out) (sym (rw (panic, step) at e)))
        | inr ((f, u), made) ↦
            let same = some-injective _ _ (rw (made, step) at e) in
            let (low, unused, mine, others, keeps) = prepared s command_id payload waiter v made in
            subst (λ z. Keeps s z.0 z.1 (λ x. x waiter)) same keeps
      ]
  step-Keeps s (Event.cancel tid) v e =
      subst (λ z. Keeps s z.0 z.1 (λ x. 0)) (some-injective _ _ e) (cancel_request-Keeps s tid v)
  step-Keeps s (Event.inbound f) v e =
      subst (λ z. Keeps s z.0 z.1 (λ x. 0)) (some-injective _ _ e)
        (handle_inbound_frame-Keeps s f v)

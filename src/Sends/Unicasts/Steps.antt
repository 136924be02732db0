-- ===== src/Sends/Unicasts/Steps.antt =====
-- The operations on the unicasts that no radio report starts: admission, polls, acknowledgments,
-- cancels and the timer.
use mathlib.Core.Option.{some-injective}
use ziggurat.Base.{
  ℕ, ◌+◌, ◌≡◌, refl, sym, ◌∙◌, subst, true, false, Option, none, some, List, [], arith, Bool-cases,
  Option-cases, inl, inr, ap, ok, err, ltb, find, find-some, ◌&&◌,
}
use ziggurat.Base.Order.{nat_ord, key_eq}
use ziggurat.Types.{Nwk, Eui64}
use ziggurat.FlatMap.{get, modify}
use ziggurat.FlatMap.Laws.{get-insert}
use ziggurat.FlatMap.Entries.{get_found}
use ziggurat.FlatMap.Totals.{total, total-insert}
use ziggurat.Sends.{Address, ApsAckData, SendFailure, Transmit, Action, Tunables}
use ziggurat.Sends.Ledger.{
  settled_weight, set_at, Keeps, Keeps-same, modify-Keeps, insert_new, lent-insert,
}
use ziggurat.Sends.Sweep.{sweep-Runs, settle_all-Runs}
use ziggurat.Sends.Unicasts.{
  Record, Stage, Unicast, Unicasts, is_lent, is_awaiting_poll, settle, lend, dequeue, poll,
  oldest_polled, answer, ack_received, expects, more_pending, enqueue, new_record, drop_indirect,
  dropped, fail_with, tick, requeue, requeued_stage, lapsed, deadline_failure, admission, polled_by,
  report,
}
use ziggurat.Sends.Unicasts.Books.{
  waiter_of, on_loan, Ok, IsValid, loans, Ends, settle-Ends, modify-Ends, final-weight,
  report-final, frame_of,
}

module _ {F W E : Type 0} where
  -- A frame that is not on loan is lent.
  pub dequeue-lends :
      (m : Unicasts F W) (id : ℕ) (r : Record F W)
      → IsValid m
      → get m id ≡ some r
      → is_lent r.stage ≡ false
      → (frame : F) × (dequeue m id
          ≡ some (
            record {
              id = id;
              frame = frame;
              transmit = Transmit.unicast r.next_hop (more_pending m id r.poll_address);
            },
            modify m id lend,
          ))
        × Keeps waiter_of on_loan Ok F E m (modify m id lend) [] (set_at (loans m) id true)
  unfolding dequeue settled_weight
  dequeue-lends m id r v g n =
      let (frame, e) = frame_of r (v.each id r g) n in
      (
        frame,
        rw (g, dequeue, e) refl,
        modify-Keeps waiter_of on_loan Ok m id lend [] v g refl refl (λ w. refl),
      )

  pub poll-Keeps :
      (m : Unicasts F W) (eui64 : Option Eui64) (nwk : Option Nwk) (now : ℕ)
      → IsValid m
      → Keeps waiter_of on_loan Ok F E m (poll m eui64 nwk now).0 [] (loans m)
  unfolding poll oldest_polled
  poll-Keeps m eui64 nwk now v = elim (Option-cases (oldest_polled m eui64 nwk now)) [
    | inl e ↦ rw (e, poll) (Keeps-same waiter_of on_loan Ok F E m v)
    | inr ((id, r), e) ↦
        let test =
          find-some
            (λ x.
              is_awaiting_poll x.1.stage
              && polled_by eui64 nwk x.1.poll_address
              && ltb now x.1.deadline)
            m.entries e in
        let g = get_found _ m v.sorted e in
        let (n, acts, same, keeps) =
          modify-Ends {E = E} m id r answer v g (ground (arith, v.each id r g)) refl
            (ground arith) in
        let two = some-injective _ _ same in
        rw (e, poll)
          (subst (λ x. Keeps waiter_of on_loan Ok F E m x.0 x.1 (loans m)) (sym two) keeps)
  ]

  pub ack_received-Ends :
      (m : Unicasts F W) (ack : ApsAckData)
      → IsValid m
      → Ends m (ack_received {E = E} m ack) (loans m)
  unfolding ack_received
  ack_received-Ends m ack v = elim (Option-cases (find (λ e. expects ack e.1.confirm) m.entries)) [
    | inl e ↦ rw (e, ack_received) (m, [], refl, Keeps-same waiter_of on_loan Ok F E m v)
    | inr ((id, r), e) ↦
        let g = get_found (λ x. expects ack x.1.confirm) m v.sorted e in
        elim (Bool-cases (is_lent r.stage)) [
          | inl l ↦
              rw (e, ack_received, l)
                (modify-Ends m id r _ v g (ground (arith, v.each id r g)) refl (sym l))
          | inr n ↦ rw (e, ack_received, n) (settle-Ends m id r (ok tt) none v g n)
        ]
  ]

  -- A record that a sweep selects is not on loan, and settling it settles its waiter.
  pub failing :
      (from : SendFailure → E) (h : Record F W → Record F W)
      → Record F W
      → SendFailure
      → List (Action F W E)
  failing from h r failure = elim (report (h r) (err (from failure)) none) [
    | none ↦ []
    | some acts ↦ acts
  ]

  pub failing-settles :
      (from : SendFailure → E) (h : Record F W → Record F W) (id : ℕ) (r : Record F W)
      (failure : SendFailure)
      → Ok (h r)
      → is_lent (h r).stage ≡ false
      → (h r).waiter ≡ r.waiter
      → (fail_with from id (h r) failure ≡ some (failing from h r failure))
        × ((w : W → ℕ) → settled_weight w (failing from h r failure) ≡ w r.waiter)
  unfolding failing
  failing-settles from h id r failure p n q =
      let (frame, e) = frame_of (h r) p n in
      let known = report-final (h r) frame (err (from failure)) none e in
      (
        rw (known, failing) refl,
        λ w. rw (known, failing) (final-weight (h r) frame (err (from failure)) none w ∙ ap w q),
      )

-- A new record is not on loan.
admission_free :
    (p : Option Address) (d : Option ℕ) (now : ℕ) (t : Tunables)
    → is_lent (admission p d now t).0 ≡ false
admission_free none none now t = refl
admission_free none (some d) now t = refl
admission_free (some a) none now t = refl
admission_free (some a) (some d) now t = refl

module _ {F W : Type 0} where
  requeue_loan : (now : ℕ) (r : Record F W) → is_lent (requeue now r).stage ≡ is_lent r.stage
  requeue_loan now r = by_stage r.stage
    where
      by_stage : (s : Stage) → is_lent (requeued_stage now s) ≡ is_lent s
      by_stage Stage.queued = refl
      by_stage (Stage.transmitting acked) = refl
      by_stage (Stage.retrying at) = ground arith
      by_stage Stage.awaiting_poll = refl
      by_stage Stage.awaiting_aps_ack = refl

  -- A unicast enters under a new id.
  pub enqueue-new :
      (m : Unicasts F W) (id : ℕ) (u : Unicast F W) (now : ℕ) (admitted copy_of : Option ℕ)
      (t : Tunables)
      → IsValid m
      → get m id ≡ none
      → let n = enqueue m id u now admitted copy_of t in
        IsValid n
        × ((k : ℕ) → loans n k ≡ loans m k)
        × ((x : W → ℕ) → total (λ r. x r.waiter) n ≡ total (λ r. x r.waiter) m + x u.waiter)
        × ((k : ℕ) → key_eq id k ≡ false → get m k ≡ none → get n k ≡ none)
  unfolding enqueue
  enqueue-new m id u now admitted copy_of t v g =
      let r = new_record u now admitted copy_of t in
      let free = admission_free u.poll_address admitted now t in
      (
        insert_new waiter_of on_loan Ok m id r v (sym free),
        λ k. lent-insert waiter_of on_loan Ok m id r k g free,
        λ x. total-insert (λ s. x s.waiter) m id r g,
        λ k a e. get-insert m id k r ∙ rw (a, e) refl,
      )

  -- A record that lapses is not on loan.
  lapsed_loan :
      (now id : ℕ) (r : Record F W) {x : SendFailure}
      → lapsed now id r ≡ some x
      → is_lent r.stage ≡ false
  unfolding deadline_failure
  lapsed_loan now id r {x} e = by_stage r.stage refl
    where
      by_stage : (s : Stage) → r.stage ≡ s → is_lent s ≡ false
      by_stage Stage.queued q = refl
      by_stage (Stage.transmitting acked) q = absurd (ground arith)
      by_stage (Stage.retrying at) q = refl
      by_stage Stage.awaiting_poll q = refl
      by_stage Stage.awaiting_aps_ack q = refl

module _ {F W E : Type 0} (from : SendFailure → E) (m : Unicasts F W) (v : IsValid m) where
  pub drop_indirect-Ends :
      (eui64 : Option Eui64) (nwk : Nwk) → Ends m (drop_indirect from m eui64 nwk) (loans m)
  unfolding drop_indirect
  drop_indirect-Ends eui64 nwk =
      settle_all-Runs waiter_of on_loan Ok (dropped eui64 nwk) (fail_with from)
        (λ id. failing from (λ r. r))
        (λ id r x p e.
          let n : is_lent r.stage ≡ false = ground arith in
          let both = failing-settles from (λ s. s) id r x p n refl in (both.0, n, both.1))
        m v

  -- The timer pass never panics.
  pub tick-Ends : (now : ℕ) → Ends m (tick from m now) (loans m)
  unfolding tick deadline_failure
  tick-Ends now =
      sweep-Runs waiter_of on_loan Ok (requeue now) (lapsed now) (fail_with from)
        (λ id. failing from (requeue now)) (λ r. refl) (requeue_loan now)
        (λ id r x p e.
          let n = lapsed_loan now id r e in
          let both =
            failing-settles from (requeue now) id r x (p ∙ sym (requeue_loan now r))
              (requeue_loan now r ∙ n) refl in
          (both.0, n, both.1))
        (λ id r p e. p ∙ sym (requeue_loan now r)) m v

  pub cancel_cases :
      (id : ℕ) (r : Record F W)
      → get m id ≡ some r
      → is_lent r.stage ≡ false
      → Ends m (settle m id (err (from SendFailure.cancelled)) none) (loans m)
  cancel_cases id r g n = settle-Ends m id r _ none v g n

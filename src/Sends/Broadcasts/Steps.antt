-- ===== src/Sends/Broadcasts/Steps.antt =====
-- The operations on the broadcasts that no radio report starts: the first loan, quorums and the timer.
use ziggurat.Base.{
  ℕ, ◌+◌, ◌≡◌, refl, sym, ◌∙◌, true, false, none, some, [], arith, Bool-cases, Option-cases, inl,
  inr, ok, ◌||◌, not, find, ◌==◌,
}
use ziggurat.Base.Order.{nat_ord, key_eq}
use ziggurat.Types.{Nwk}
use ziggurat.FlatMap.{get, modify}
use ziggurat.FlatMap.Entries.{get_found}
use ziggurat.FlatMap.Laws.{get-insert}
use ziggurat.FlatMap.Totals.{total, total-insert}
use ziggurat.Sends.{Transmit, Tunables}
use ziggurat.Sends.Ledger.{
  settled_weight, set_at, Keeps, Keeps-same, modify-Keeps, insert_new, lent-insert,
}
use ziggurat.Sends.Broadcasts.{
  Record, Schedule, Broadcasts, is_lent, is_idle, is_once, lend, dequeue, delivered, key_of,
  key_eq as same_key, first_copy, enqueue, Broadcast, new_record,
}
use ziggurat.Sends.Broadcasts.Books.{
  waiter_of, on_loan, Ok, IsValid, loans, Ends, settle-Ends, modify-Ends, frame_of, copies_left,
}

first_free : (s : Schedule) → is_lent (first_copy s) ≡ false
first_free Schedule.once = refl
first_free (Schedule.passive_ack key copies next) = refl
first_free (Schedule.fixed_interval every copies next) = refl

first_queued : (s : Schedule) → is_once s ≡ true → is_idle (first_copy s) ≡ false
first_queued Schedule.once e = refl
first_queued (Schedule.passive_ack key copies next) e = absurd (cc)
first_queued (Schedule.fixed_interval every copies next) e = absurd (cc)

idle_first : (s : Schedule) → is_idle (first_copy s) ≡ true → is_once s ≡ false
idle_first Schedule.once e = absurd (cc)
idle_first (Schedule.passive_ack key copies next) e = refl
idle_first (Schedule.fixed_interval every copies next) e = refl

module _ {F W E : Type 0} where
  -- A frame that is not on loan is lent.
  pub dequeue-lends :
      (m : Broadcasts F W E) (id : ℕ) (r : Record F W E)
      → IsValid m
      → get m id ≡ some r
      → is_lent r.copy ≡ false
      → (frame : F) × (dequeue m id
          ≡ some
              (record { id = id; frame = frame; transmit = Transmit.broadcast }, modify m id lend))
        × Keeps waiter_of on_loan Ok F E m (modify m id lend) [] (set_at (loans m) id true)
  unfolding dequeue settled_weight
  dequeue-lends m id r v g n =
      let (frame, e) = frame_of r (v.each id r g) n in
      (
        frame,
        rw (g, dequeue, e) refl,
        modify-Keeps waiter_of on_loan Ok m id lend [] v g
            (record {
              framed = refl;
              single = λ h. (refl, ((v.each id r g).single h).1);
              owing = λ i h l. absurd (ground arith);
            })
            refl (λ w. refl),
      )

  pub delivered-Ends :
      (m : Broadcasts F W E) (key : Nwk × ℕ) → IsValid m → Ends m (delivered m key) (loans m)
  unfolding delivered
  delivered-Ends m key v =
      elim (Option-cases (find (λ e. same_key (key_of e.1.schedule) key) m.entries)) [
        | inl e ↦ rw (e, delivered) (m, [], refl, Keeps-same waiter_of on_loan Ok F E m v)
        | inr ((id, r), e) ↦
            let g = get_found (λ x. same_key (key_of x.1.schedule) key) m v.sorted e in
            let h = v.each id r g in
            elim (Bool-cases (is_lent r.copy || not r.handed_off)) [
              | inl wait ↦
                  rw (e, delivered, wait)
                    (modify-Ends m id r _ v g
                      (record { framed = h.framed; single = h.single; owing = h.owing }) refl refl)
              | inr over ↦ rw (e, delivered, over) (settle-Ends m id r (ok tt) v g (ground arith))
            ]
      ]

  -- A broadcast that owes a copy enters under a new id.
  pub enqueue-new :
      (m : Broadcasts F W E) (id : ℕ) (b : Broadcast F W) (now : ℕ) (t : Tunables)
      → IsValid m
      → get m id ≡ none
      → (is_once b.schedule ≡ false → (copies_left b.schedule == 0) ≡ false)
      → let n = enqueue m id b now t in
        IsValid n
        × ((k : ℕ) → loans n k ≡ loans m k)
        × ((x : W → ℕ) → total (λ r. x r.waiter) n ≡ total (λ r. x r.waiter) m + x b.waiter)
        × ((k : ℕ) → key_eq id k ≡ false → get m k ≡ none → get n k ≡ none)
  unfolding enqueue
  enqueue-new m id b now t v g owes =
      let r = new_record b now t in
      let free = first_free b.schedule in
      (
        insert_new waiter_of on_loan Ok m id r v (record {
          framed = sym free;
          single = λ e. (first_queued b.schedule e, refl);
          owing = λ i h l. owes (idle_first b.schedule i);
        }),
        λ k. lent-insert waiter_of on_loan Ok m id r k g free,
        λ x. total-insert (λ s. x s.waiter) m id r g,
        λ k a e. get-insert m id k r ∙ rw (a, e) refl,
      )

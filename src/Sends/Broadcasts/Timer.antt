-- ===== src/Sends/Broadcasts/Timer.antt =====
-- The timer pass over the broadcasts: it never panics, and keeps the books.
use mathlib.Core.Option.{some-injective, some-ne-none}
use ziggurat.Base.{
  ℕ, ◌≡◌, refl, sym, ◌∙◌, true, false, Option, none, some, List, [], arith, Bool-cases,
  Option-cases, inl, inr, ◌⊎◌, is_none, ap, err, leb,
}
use ziggurat.Base.Order.{nat_ord}
use ziggurat.Sends.{SendFailure, Verdict, Action}
use ziggurat.Sends.Ledger.{settled_weight, lent}
use ziggurat.Sends.Sweep.{sweep-Runs}
use ziggurat.Sends.Broadcasts.{
  Record, Schedule, CopyState, Due, Broadcasts, is_lent, is_idle, is_once, tick, tick_record,
  settled_at, settle_with, schedule_due, after_due, by_deadline, run_out, out_of_time,
  handed_off_verdict,
}
use ziggurat.Sends.Broadcasts.Books.{
  waiter_of, on_loan, Ok, IsValid, loans, Ends, final-weight, report-final, frame_of, copies_left,
}

-- What a schedule that is due says of the copies it owes.
due_copies :
    (s : Schedule) (now : ℕ)
    → ((schedule_due s now).1 ≡ some Due.over → copies_left s ≡ 0)
      × ((schedule_due s now).1 ≡ none → copies_left (schedule_due s now).0 ≡ copies_left s)
      × (is_once (schedule_due s now).0 ≡ is_once s)
unfolding schedule_due
due_copies Schedule.once now = (λ h. refl, λ h. refl, refl)
due_copies (Schedule.passive_ack key copies next) now =
    (λ h. ground arith, λ h. ground arith, ground arith)
due_copies (Schedule.fixed_interval every copies next) now =
    (λ h. ground arith, λ h. ground arith, ground arith)

verdict_some :
    {E : Type 0} (from : SendFailure → E) (s : Schedule)
    → is_once s ≡ false
    → (y : Verdict E) × (handed_off_verdict from s ≡ some y)
verdict_some from Schedule.once n = absurd (cc)
verdict_some from (Schedule.passive_ack key copies next) n = (_, refl)
verdict_some from (Schedule.fixed_interval every copies next) n = (_, refl)

idle_free : (c : CopyState) → is_idle c ≡ true → is_lent c ≡ false
idle_free CopyState.idle i = refl
idle_free CopyState.queued i = refl
idle_free CopyState.transmitting i = absurd (cc)

-- A broadcast that was handed off has a schedule.
handed_many :
    {F W E : Type 0} (r : Record F W E) → Ok r → r.handed_off ≡ true → is_once r.schedule ≡ false
handed_many r o t = elim (Bool-cases (is_once r.schedule)) [
  | inl single ↦ absurd (ground (arith, (o.single single).1))
  | inr many ↦ many
]

module _ {F W E : Type 0} (from : SendFailure → E) where
  -- What one round of the timer's loop makes of a record: its waiter and its loan are the same, it
  -- stays valid unless it is settled, and its verdict is known.
  pub record Round (now : ℕ) (r : Record F W E) : Type 0 where
    pub waiter : (tick_record from now r).0.waiter ≡ r.waiter
    pub loan : is_lent (tick_record from now r).0.copy ≡ is_lent r.copy
    pub frame : (tick_record from now r).0.frame ≡ r.frame

  by_copy : (now : ℕ) (r : Record F W E) (c : CopyState) → r.copy ≡ c → Round now r
  unfolding tick_record
  by_copy now r CopyState.idle e = by_due (schedule_due r.schedule now).1 refl
    where
      by_due : (d : Option Due) → (schedule_due r.schedule now).1 ≡ d → Round now r
      by_due none f = record {
        waiter = rw (e, tick_record, f) refl;
        loan = rw (e, tick_record, f) refl;
        frame = rw (e, tick_record, f) refl;
      }
      by_due (some Due.copy) f = record {
        waiter = rw (e, tick_record, f) refl;
        loan = rw (e, tick_record, f) refl;
        frame = rw (e, tick_record, f) refl;
      }
      by_due (some Due.over) f = record {
        waiter = rw (e, tick_record, f) refl;
        loan = rw (e, tick_record, f) refl;
        frame = rw (e, tick_record, f) refl;
      }
  by_copy now r CopyState.queued e = record {
    waiter = rw (e, tick_record) refl;
    loan = rw (e, tick_record) refl;
    frame = rw (e, tick_record) refl;
  }
  by_copy now r CopyState.transmitting e = record {
    waiter = rw (e, tick_record) refl;
    loan = rw (e, tick_record) refl;
    frame = rw (e, tick_record) refl;
  }

  out_some :
      (r : Record F W E)
      → (r.handed_off ≡ true → is_once r.schedule ≡ false)
      → (y : Verdict E) × (out_of_time from r ≡ some y)
  out_some r h = elim (Bool-cases r.handed_off) [
    | inl t ↦ let (y, e) = verdict_some from r.schedule (h t) in (y, rw t e)
    | inr f ↦ (err (from SendFailure.handoff_timeout), rw f refl)
  ]

  run_some :
      (r : Record F W E)
      → (r.handed_off ≡ true → is_once r.schedule ≡ false)
      → (r.handed_off ≡ false → is_none r.last_error ≡ false)
      → (y : Verdict E) × (run_out from r ≡ some y)
  run_some r h l = elim (Bool-cases r.handed_off) [
    | inl t ↦ let (y, e) = verdict_some from r.schedule (h t) in (y, rw t e)
    | inr f ↦ elim (Option-cases r.last_error) [
      | inl n ↦ absurd (ground (arith, l f))
      | inr (x, e) ↦ (err x, rw (f, e) refl)
    ]
  ]

  -- A round settles a record with a verdict, or leaves it valid.
  abbrev Settled : Record F W E × Option (Option (Verdict E)) → Type 0
  Settled x = ((y : Verdict E) × (x.1 ≡ some (some y))) ⊎ ((x.1 ≡ none) × Ok x.0)

  by_deadline-Settled : (now : ℕ) (r : Record F W E) → Ok r → Settled (by_deadline from now r)
  by_deadline-Settled now r o = elim (Bool-cases (leb r.deadline now)) [
    | inl late ↦ let (y, e) = out_some r (handed_many r o) in inl (y, rw late (ap some e))
    | inr soon ↦ inr (rw soon refl, o)
  ]

  round-Settled : (now : ℕ) (r : Record F W E) → Ok r → Settled (tick_record from now r)
  unfolding tick_record
  round-Settled now r o = elim (Bool-cases (is_lent r.copy)) [
    | inl lent ↦ rw lent (inr (refl, o))
    | inr free ↦ elim (Bool-cases (is_idle r.copy)) [
      | inl idle ↦ rw (free, idle) (by_due (schedule_due r.schedule now).1 idle refl)
      | inr queued ↦ rw (free, queued) (by_deadline-Settled now r o)
    ]
  ]
    where
      many : is_idle r.copy ≡ true → is_once r.schedule ≡ false
      many i = elim (Bool-cases (is_once r.schedule)) [
        | inl single ↦ absurd (ground (arith, (o.single single).0))
        | inr n ↦ n
      ]

      next : Record F W E
      next = record r { schedule = (schedule_due r.schedule now).0 }

      -- The next schedule is no single copy either.
      next_many : is_idle r.copy ≡ true → is_once next.schedule ≡ false
      next_many i = (due_copies r.schedule now).2 ∙ many i

      by_due :
          (d : Option Due)
          → is_idle r.copy ≡ true
          → (schedule_due r.schedule now).1 ≡ d
          → Settled (after_due from now next d)
      by_due none i f = by_deadline-Settled now next (record {
        framed = o.framed;
        single = λ h. absurd (ground (arith, next_many i));
        owing = λ a b c. rw ((due_copies r.schedule now).1 f) (o.owing a b c);
      })
      by_due (some Due.copy) i f =
          by_deadline-Settled now (record next { copy = CopyState.queued })
            (record {
              framed = o.framed ∙ idle_free r.copy i;
              single = λ h. absurd (ground (arith, next_many i));
              owing = λ a b c. absurd (ground arith);
            })
      by_due (some Due.over) i f =
          let (y, e) =
            run_some next (λ t. next_many i)
              (λ n. elim (Bool-cases (is_none r.last_error)) [
                | inl none_yet ↦
                    absurd (ground (arith, o.owing i n none_yet, (due_copies r.schedule now).0 f))
                | inr known ↦ known
              ]) in
          inl (y, ap some e)

  -- A record that the loop settles is not on loan.
  settled_free :
      (now : ℕ) (r : Record F W E) {x : Option (Verdict E)}
      → (tick_record from now r).1 ≡ some x
      → is_lent r.copy ≡ false
  unfolding tick_record
  settled_free now r {x} e = elim (Bool-cases (is_lent r.copy)) [
    | inl l ↦ absurd (some-ne-none x (sym (rw l at e)))
    | inr n ↦ n
  ]

  -- The actions of a record that the loop settles.
  ending : ℕ → Record F W E → Option (Verdict E) → List (Action F W E)
  ending now r x = elim (settle_with 0 (tick_record from now r).0 x) [
    | none ↦ []
    | some acts ↦ acts
  ]

  ending-settles :
      (now id : ℕ) (r : Record F W E) (x : Option (Verdict E))
      → Ok r
      → settled_at from now id r ≡ some x
      → (settle_with id (tick_record from now r).0 x ≡ some (ending now r x))
        × (is_lent r.copy ≡ false)
        × ((w : W → ℕ) → settled_weight w (ending now r x) ≡ w r.waiter)
  unfolding ending
  ending-settles now id r x o e =
      let next = (tick_record from now r).0 in
      let round = by_copy now r r.copy refl in
      let n = settled_free now r e in
      let (frame, f) = frame_of r o n in
      elim (round-Settled now r o) [
        | inl (y, q) ↦
            let known = report-final next frame y (round.frame ∙ f) in
            rw (some-injective x (some y) (sym e ∙ q)) (
              rw (known, ending) refl,
              n,
              λ w. rw (known, ending) (final-weight next frame y w ∙ ap w round.waiter),
            )
        | inr (q, stays) ↦ absurd (some-ne-none x (sym e ∙ q))
      ]

module _ {F W E : Type 0} (from : SendFailure → E) (m : Broadcasts F W E) (v : IsValid m) where
  stays :
      (now id : ℕ) (r : Record F W E)
      → Ok r
      → settled_at from now id r ≡ none
      → Settled from (tick_record from now r)
      → Ok (tick_record from now r).0
  stays now id r o e (inl (y, q)) = absurd (some-ne-none (some y) (sym q ∙ e))
  stays now id r o e (inr (q, p)) = p

  -- The timer pass never panics.
  pub tick-Ends : (now : ℕ) → Ends m (tick from m now) (loans m)
  unfolding tick
  tick-Ends now =
      sweep-Runs waiter_of on_loan Ok (λ r. (tick_record from now r).0) (settled_at from now)
        settle_with (λ id. ending from now) (λ r. (by_copy from now r r.copy refl).waiter)
        (λ r. (by_copy from now r r.copy refl).loan)
        (λ id r x o e. ending-settles from now id r x o e)
        (λ id r o e. stays now id r o e (round-Settled from now r o)) m v

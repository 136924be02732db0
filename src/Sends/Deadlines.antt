-- ===== src/Sends/Deadlines.antt =====
-- What a pass of the timer leaves: the docs of crates/ziggurat-zigbee/src/sends/mod.rs say that a
-- record's deadline keeps it from being stranded.
use mathlib.Core.Option
use mathlib.Core.Option.{some-injective, some-ne-none}
use ziggurat.Base.{
  ℕ, ◌<◌, ◌≡◌, refl, sym, ◌∙◌, ap, subst, false, Option, none, some, List, if◌then◌else◌, arith,
  inl, inr, Option-cases, Bool-cases, leb, Result,
}
use ziggurat.Base.Order.{nat_ord}
use ziggurat.Types.{Nwk}
use ziggurat.FlatMap.{get}
use ziggurat.FlatMap.Sorted.{IsSorted}
use ziggurat.FlatMap.Survivors.{survivor}
use ziggurat.FlatMap.Drain.{update_values_self, drain, collect}
use ziggurat.Sends.{Address, SendFailure, Action, Tunables}
use ziggurat.Sends.Settling
use ziggurat.Sends.Front.{Sends}
use ziggurat.Sends.Unicasts
use ziggurat.Sends.Unicasts.{Unicasts, Stage, requeue, requeued_stage, lapsed, failure_in}
use ziggurat.Sends.Unrouted
use ziggurat.Sends.Unrouted.{UnroutedUnicasts}
use ziggurat.Sends.Broadcasts
use ziggurat.Sends.Broadcasts.{Broadcasts, Due, tick_record, schedule_due}
use ziggurat.Sends.World.{World, Event, acting, step, History}
use ziggurat.Sends.World.Histories.{History-IsValid, no_panic}

-- No record of the tables is past its deadline, but for those whose frame is lent.
pub record IsCurrent {F W E : Type 0} (now : ℕ) (s : Sends F W E) : Type 0 where
  pub unicasts :
      (k : ℕ) (r : Unicasts.Record F W)
      → get s.unicasts k ≡ some r
      → Unicasts.is_lent r.stage ≡ false
      → now < r.deadline
  pub unrouted :
      (k : ℕ) (r : Unrouted.Record F W)
      → get s.unrouted_unicasts.records k ≡ some r
      → now < r.deadline
  pub broadcasts :
      (k : ℕ) (r : Broadcasts.Record F W E)
      → get s.broadcasts k ≡ some r
      → Broadcasts.is_lent r.copy ≡ false
      → now < r.deadline

unlapsed_stage :
    (now deadline : ℕ) (stage : Stage) (p : Option Address)
    → (if leb deadline now then failure_in (requeued_stage now stage) p else none) ≡ none
    → Unicasts.is_lent (requeued_stage now stage) ≡ false
    → now < deadline
unlapsed_stage now deadline Stage.queued p e l = ground arith
unlapsed_stage now deadline (Stage.transmitting acked) p e l = absurd (ground arith)
unlapsed_stage now deadline (Stage.retrying at) p e l = ground arith
unlapsed_stage now deadline Stage.awaiting_poll p e l = ground arith
unlapsed_stage now deadline Stage.awaiting_aps_ack p e l = ground arith

module _ {F W E : Type 0} (from : SendFailure → E) (now : ℕ) where
  unicasts_left :
      (m n : Unicasts F W) (a : List (Action F W E)) (k : ℕ) (r : Unicasts.Record F W)
      → IsSorted m
      → Unicasts.tick from m now ≡ some (n, a)
      → get n k ≡ some r
      → Unicasts.is_lent r.stage ≡ false
      → now < r.deadline
  unfolding Unicasts.tick Unicasts.deadline_failure
  unicasts_left m n a k r s e g l =
      let (v, found, missed, same) =
        survivor (lapsed now) (Unicasts.fail_with from) (requeue now) m n a k r s e g in
      subst (λ x. now < x.deadline) (sym same)
        (unlapsed_stage now v.deadline v.stage v.poll_address missed
          (ap (λ x. Unicasts.is_lent x.stage) (sym same) ∙ l))

  by_deadline_left :
      (r : Broadcasts.Record F W E)
      → (Broadcasts.by_deadline from now r).1 ≡ none
      → now < r.deadline
  by_deadline_left r e = ground arith

  after_due_left :
      (r : Broadcasts.Record F W E) (d : Option Due)
      → (Broadcasts.after_due from now r d).1 ≡ none
      → now < (Broadcasts.after_due from now r d).0.deadline
  after_due_left r none e = by_deadline_left r e
  after_due_left r (some Due.copy) e =
      by_deadline_left (record r { copy = Broadcasts.CopyState.queued }) e
  after_due_left r (some Due.over) e = absurd (some-ne-none _ e)

  abbrev Left : Broadcasts.Record F W E × Option (Option (Result (Unit {0}) E)) → Type 0
  Left z = z.1 ≡ none → Broadcasts.is_lent z.0.copy ≡ false → now < z.0.deadline

  remaining_of : (r : Broadcasts.Record F W E) → Left (tick_record from now r)
  unfolding tick_record
  remaining_of r = elim (Bool-cases (Broadcasts.is_lent r.copy)) [
    | inl lent ↦
        subst Left {x = (r, none)} {y = tick_record from now r} (rw (lent, tick_record) refl)
          (λ e l. absurd (ground arith))
    | inr free ↦ elim (Bool-cases (Broadcasts.is_idle r.copy)) [
      | inl idle ↦
          let (s, d) = schedule_due r.schedule now in
          let q = record r { schedule = s } in
          subst Left {x = Broadcasts.after_due from now q d} {y = tick_record from now r}
            (rw (free, tick_record, idle) refl) (λ e l. after_due_left q d e)
      | inr queued ↦
          subst Left {x = Broadcasts.by_deadline from now r} {y = tick_record from now r}
            (rw (free, tick_record, queued) refl) (λ e l. by_deadline_left r e)
    ]
  ]

  broadcasts_left :
      (m n : Broadcasts F W E) (a : List (Action F W E)) (k : ℕ) (r : Broadcasts.Record F W E)
      → IsSorted m
      → Broadcasts.tick from m now ≡ some (n, a)
      → get n k ≡ some r
      → Broadcasts.is_lent r.copy ≡ false
      → now < r.deadline
  unfolding Broadcasts.tick
  broadcasts_left m n a k r s e g l =
      let (v, found, missed, same) =
        survivor (Broadcasts.settled_at from now) Broadcasts.settle_with
          (λ x. (tick_record from now x).0) m n a k r s e g in
      subst (λ x. now < x.deadline) (sym same)
        (remaining_of v missed (ap (λ x. Broadcasts.is_lent x.copy) (sym same) ∙ l))

  unrouted_left :
      (u v : UnroutedUnicasts F W) (a : List (Action F W E)) (k : ℕ) (r : Unrouted.Record F W)
      → IsSorted u.records
      → Unrouted.tick from u now ≡ some (v, a)
      → get v.records k ≡ some r
      → now < r.deadline
  unfolding Unrouted.tick
  unrouted_left u v a k r s e g =
      elim (Option-cases
        (drain (Unrouted.lapse from) (collect (Unrouted.lapsed now) u.records.entries) u.records)) [
          | inl panic ↦ absurd (some-ne-none (v, a) (sym (rw (panic, Unrouted.tick) at e)))
          | inr ((n, b), run) ↦
              let ends = some-injective _ _ (rw (run, Unrouted.tick) at e) in
              let (w, found, missed, same) =
                survivor (Unrouted.lapsed now) (Unrouted.lapse from) (λ x. x) u.records n b k r s
                  (rw (update_values_self u.records) run)
                  (subst (λ x. get x.records k ≡ some r) (sym (ap (λ x. x.0) ends)) g) in
              subst (λ x. now < x.deadline) (sym same) (ground (arith, missed))
        ]

  Runs : Sends F W E → Sends F W E → Type 0
  Runs s p =
      (a b c : List (Action F W E)) × (Unicasts.tick from s.unicasts now ≡ some (p.unicasts, a))
      × (Unrouted.tick from s.unrouted_unicasts now ≡ some (p.unrouted_unicasts, b))
      × (Broadcasts.tick from s.broadcasts now ≡ some (p.broadcasts, c))

  ran :
      (s p : Sends F W E) (acts : List (Action F W E))
      → Settling.tick from s now ≡ some (p, acts)
      → Runs s p
  unfolding Settling.tick Runs
  ran s p acts e = elim (Option-cases (Unicasts.tick from s.unicasts now)) [
    | inl panic ↦ absurd (some-ne-none (p, acts) (sym (rw (panic, Settling.tick) at e)))
    | inr ((m, a), x) ↦ elim (Option-cases (Unrouted.tick from s.unrouted_unicasts now)) [
      | inl panic ↦
          absurd (some-ne-none (p, acts) (sym (rw (x, Settling.tick, panic, Settling.tick) at e)))
      | inr ((u, b), y) ↦ elim (Option-cases (Broadcasts.tick from s.broadcasts now)) [
        | inl panic ↦ absurd (
            some-ne-none (p, acts)
              (sym (rw (x, Settling.tick, y, Settling.tick, panic, Settling.tick) at e)))
        | inr ((n, c), z) ↦
            let ends =
              ap (λ q. q.0)
                (some-injective _ _
                  (rw (x, Settling.tick, y, Settling.tick, z, Settling.tick) at e)) in
            (
              a,
              b,
              c,
              x ∙ ap (λ q. some (q, a)) (ap (λ q. q.unicasts) ends),
              y ∙ ap (λ q. some (q, b)) (ap (λ q. q.unrouted_unicasts) ends),
              z ∙ ap (λ q. some (q, c)) (ap (λ q. q.broadcasts) ends),
            )
      ]
    ]
  ]

  tick-IsCurrent :
      (s p : Sends F W E) (acts : List (Action F W E))
      → IsSorted s.unicasts
      → IsSorted s.unrouted_unicasts.records
      → IsSorted s.broadcasts
      → Settling.tick from s now ≡ some (p, acts)
      → IsCurrent now p
  unfolding Runs
  tick-IsCurrent s p acts i j l e =
      let (a, b, c, x, y, z) = ran s p acts e in
      record {
        unicasts = λ k r. unicasts_left s.unicasts p.unicasts a k r i x;
        unrouted = λ k r. unrouted_left s.unrouted_unicasts p.unrouted_unicasts b k r j y;
        broadcasts = λ k r. broadcasts_left s.broadcasts p.broadcasts c k r l z;
      }

acted :
    {F W E : Type 0} (w : World F W E) {v : World F W E} {acts : List (Action F W E)}
    (o : Option (Sends F W E × List (Action F W E)))
    → acting w o ≡ some (v, acts)
    → o ≡ some (v.sends, acts)
acted w {v} {acts} none e = absurd (some-ne-none (v, acts) (sym e))
acted w (some (s, a)) e = ap (Option.map (λ q. (q.0.sends, q.1))) e

module _ {F W E : Type 0} (from : SendFailure → E)
    (resolve : F → F × Result (Nwk × Option Address) E) (t : Tunables) where
  timed :
      (w v : World F W E) (now : ℕ) (acts : List (Action F W E))
      → step from resolve t w (Event.tick now) ≡ some (v, acts)
      → Settling.tick from w.sends now ≡ some (v.sends, acts)
  unfolding step
  timed w v now acts e = acted w (Settling.tick from w.sends now) e

  -- In every state that a history of legal calls of the send tables reaches, a timer pass does not
  -- panic, and after it each record whose frame is not lent has its deadline ahead.
  pub tick_strands_none :
      {w : World F W E} {es : List (Event F W E)} {acts : List (Action F W E)}
      → History from resolve t w es acts
      → (now : ℕ)
      → (v : World F W E) × (more : List (Action F W E)) × (step from resolve t w (Event.tick now)
          ≡ some (v, more))
        × IsCurrent now v.sends
  tick_strands_none {w} h now =
      let (v, more, ends) = no_panic from resolve t h (Event.tick now) tt in
      let i = History-IsValid from resolve t h in
      (
        v,
        more,
        ends,
        tick-IsCurrent from now w.sends v.sends more i.unicasts.sorted i.unrouted
            i.broadcasts.sorted (timed w v now more ends),
      )

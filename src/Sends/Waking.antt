-- ===== src/Sends/Waking.antt =====
-- The timer against the time it asks to be woken at: before that, a pass does nothing.
use ziggurat.Base.{
  ℕ, ◌<◌, ◌≤◌, ◌≡◌, refl, ap, true, false, Option, none, some, List, [], ◌∷◌, map, if◌then◌else◌,
  arith, inl, inr, Option-cases, Bool-cases, All, All-map, leb,
}
use ziggurat.Base.Order.{nat_ord}
use ziggurat.FlatMap.{values}
use ziggurat.FlatMap.Drain.{drain-idle, update_values_self}
use ziggurat.Sends.{Address, SendFailure, earliest, min_with}
use ziggurat.Sends.Front
use ziggurat.Sends.Settling
use ziggurat.Sends.Front.{Sends}
use ziggurat.Sends.Unicasts
use ziggurat.Sends.Unicasts.{Unicasts, Stage, requeue, requeued_stage, lapsed, failure_in, wake_in}
use ziggurat.Sends.Unrouted
use ziggurat.Sends.Unrouted.{UnroutedUnicasts}
use ziggurat.Sends.Broadcasts
use ziggurat.Sends.Broadcasts.{
  Broadcasts, Schedule, CopyState, attempt_of, schedule_due, tick_record,
}

-- The time is not reached yet, if there is one.
abbrev pub Later : ℕ → Option ℕ → Type 0
Later now o = (a : ℕ) → o ≡ some a → now < a

min_with-le : (b : ℕ) (o : Option ℕ) → min_with b o ≤ b
min_with-le b none = omega arith
min_with-le b (some a) = ground arith

min_with-some-le : (b : ℕ) (o : Option ℕ) {a : ℕ} → o ≡ some a → min_with b o ≤ a
min_with-some-le b none e = absurd (ground arith)
min_with-some-le b (some c) e = ground arith

earliest-Later : (now : ℕ) (xs : List (Option ℕ)) → Later now (earliest xs) → All (Later now) xs
unfolding earliest
earliest-Later now [] h = tt
earliest-Later now (none ∷ xs) h = (λ a e. absurd (ground arith), earliest-Later now xs h)
earliest-Later now (some b ∷ xs) h =
    let first = h (min_with b (earliest xs)) refl in
    (
      λ a e. ground (arith, min_with-le b (earliest xs)),
      earliest-Later now xs (λ a e. omega (arith, min_with-some-le b (earliest xs) e)),
    )

quiet_values :
    {V : Type 0} (now : ℕ) (wake : V → Option ℕ) (es : List (ℕ × V))
    → All (Later now) (map wake (map (λ e. e.1) es))
    → All (λ e. Later now (wake e.1)) es
quiet_values now wake [] a = tt
quiet_values now wake (e ∷ es) a = (a.0, quiet_values now wake es a.1)

-- A unicast whose time has not come.
quiet_unicast :
    (now deadline : ℕ) (stage : Stage)
    → Later now (wake_in stage deadline)
    → (requeued_stage now stage ≡ stage)
      × ((p : Option Address) → (if leb deadline now then failure_in stage p else none) ≡ none)
quiet_unicast now deadline Stage.queued h = (refl, λ p. ground (arith, h deadline refl))
quiet_unicast now deadline (Stage.transmitting acked) h = (refl, λ p. ground arith)
quiet_unicast now deadline (Stage.retrying at) h = (
  ground (arith, h (if leb at deadline then at else deadline) refl),
  λ p. ground (arith, h (if leb at deadline then at else deadline) refl),
)
quiet_unicast now deadline Stage.awaiting_poll h = (refl, λ p. ground (arith, h deadline refl))
quiet_unicast now deadline Stage.awaiting_aps_ack h = (refl, λ p. ground (arith, h deadline refl))

not_due : (now : ℕ) (s : Schedule) → Later now (attempt_of s) → schedule_due s now ≡ (s, none)
unfolding schedule_due
not_due now Schedule.once h = refl
not_due now (Schedule.passive_ack key copies next) h = ground (arith, h next refl)
not_due now (Schedule.fixed_interval every copies next) h = ground (arith, h next refl)

quiet_times :
    {F W E : Type 0} (now : ℕ) (r : Broadcasts.Record F W E) (c : CopyState)
    → Later now (Broadcasts.wake_in c r)
    → (Broadcasts.is_lent c ≡ false → now < r.deadline)
      × (Broadcasts.is_idle c ≡ true → Later now (attempt_of r.schedule))
quiet_times now r CopyState.transmitting h = (λ e. absurd (cc), λ e. absurd (cc))
quiet_times now r CopyState.queued h = (λ e. h r.deadline refl, λ e. absurd (cc))
quiet_times now r CopyState.idle h = elim (Option-cases (attempt_of r.schedule)) [
  | inl none_due ↦
      (λ e. h r.deadline (rw (none_due, Broadcasts.wake_in) refl), λ e a f. absurd (ground arith))
  | inr (next, due) ↦
      let first =
        h (if leb next r.deadline then next else r.deadline) (rw (due, Broadcasts.wake_in) refl) in
      (λ e. ground arith, λ e a f. ground (arith, due))
]

module _ {F W E : Type 0} (from : SendFailure → E) (now : ℕ) where
  unicasts_idle :
      (m : Unicasts F W)
      → Later now (Unicasts.next_wake m)
      → Unicasts.tick from m now ≡ some (m, [])
  unfolding Unicasts.tick Unicasts.next_wake values
  unicasts_idle m h = drain-idle (lapsed now) (Unicasts.fail_with from) (requeue now) m (
      All-map quiet m.entries
        (quiet_values now Unicasts.next_wake_of m.entries (earliest-Later now _ h)))
    where
      quiet :
          (e : ℕ × Unicasts.Record F W)
          → Later now (Unicasts.next_wake_of e.1)
          → (lapsed now e.0 e.1 ≡ none) × (requeue now e.1 ≡ e.1)
      quiet (k, r) l =
          unfold Unicasts.next_wake_of Unicasts.deadline_failure in
          let (same, none_due) = quiet_unicast now r.deadline r.stage l in
          (rw same (none_due r.poll_address), ap (λ s. record r { stage = s }) same)

  unrouted_idle :
      (u : UnroutedUnicasts F W)
      → Later now (Unrouted.next_wake u)
      → Unrouted.tick from u now ≡ some (u, [])
  unfolding Unrouted.tick Unrouted.next_wake values
  unrouted_idle u h =
      let quiet =
        quiet_values now (λ r. some r.deadline) u.records.entries (earliest-Later now _ h) in
      let idle =
        drain-idle (Unrouted.lapsed now) (Unrouted.lapse from) (λ r. r) u.records
          (All-map (λ e l. (ground (arith, l e.1.deadline refl), refl)) u.records.entries quiet) in
      rw (rw (update_values_self u.records) at idle, Unrouted.tick) refl

  broadcasts_idle :
      (m : Broadcasts F W E)
      → Later now (Broadcasts.next_wake m)
      → Broadcasts.tick from m now ≡ some (m, [])
  unfolding Broadcasts.tick Broadcasts.next_wake values
  broadcasts_idle m h =
      drain-idle (Broadcasts.settled_at from now) Broadcasts.settle_with
        (λ r. (tick_record from now r).0) m
        (All-map (λ e l. let q = quiet e.1 l in (ap (λ x. x.1) q, ap (λ x. x.0) q)) m.entries
          (quiet_values now Broadcasts.next_wake_of m.entries (earliest-Later now _ h)))
    where
      by_deadline :
          (r : Broadcasts.Record F W E)
          → now < r.deadline
          → Broadcasts.by_deadline from now r ≡ (r, none)
      by_deadline r l = ground arith

      quiet :
          (r : Broadcasts.Record F W E)
          → Later now (Broadcasts.next_wake_of r)
          → tick_record from now r ≡ (r, none)
      quiet r l =
          unfold Broadcasts.next_wake_of tick_record in
          let (limit, attempt) = quiet_times now r r.copy l in
          elim (Bool-cases (Broadcasts.is_lent r.copy)) [
            | inl lent ↦ rw lent refl
            | inr free ↦ elim (Bool-cases (Broadcasts.is_idle r.copy)) [
              | inl idle ↦
                  rw (free, idle, not_due now r.schedule (attempt idle))
                    (by_deadline r (limit free))
              | inr queued ↦ rw (free, queued) (by_deadline r (limit free))
            ]
          ]

  -- A timer pass before the time that the tables ask to be woken at, if there is one, changes
  -- nothing and yields no action.
  pub tick_idle :
      (s : Sends F W E) → Later now (Front.next_wake s) → Settling.tick from s now ≡ some (s, [])
  unfolding Settling.tick Front.next_wake
  tick_idle s h =
      let (a, (b, (c, u))) = earliest-Later now _ h in
      rw
        (
          unicasts_idle s.unicasts a,
          Settling.tick,
          unrouted_idle s.unrouted_unicasts b,
          broadcasts_idle s.broadcasts c,
        )
        refl

-- ===== src/Protocol/SendTracker/Progress.antt =====
-- A sweep that sees both verdicts of a send retires it.
use ziggurat.Base.{
  ℕ, ◌≡◌, refl, sym, ◌∙◌, ap, subst, ◌&&◌, Bool, true, false, Option, none, some, List, [], ◌∷◌,
  if◌then◌else◌, ok, err, inl, inr, ◌⊎◌, Bool-cases,
}
use ziggurat.Base.Order.{nat_ord}
use ziggurat.FlatMap
use ziggurat.FlatMap.Sorted.{IsSorted}
use ziggurat.FlatMap.StaysSorted.{insert-IsSorted}
use ziggurat.FlatMap.Everywhere.{get-insert_self}
use ziggurat.Protocol.SendTracker
use ziggurat.Protocol.SendTracker.{
  SendTracker, TrackedSend, ConfirmKind, SendProgress, Notification, Swept, Verdict, SendStatus,
  fresh, sweep_delivered, sweep_handed_off, sweep_entry, sweep,
}
use ziggurat.Protocol.SendTracker.Table.{left, sweep-IsSorted, get-sweep}
use ziggurat.Protocol.SendTracker.Once.{sweep_all}

-- A sweep of an entry keeps its handle, and is its last where both verdicts are there.
record Handled (e : TrackedSend) (w : Swept) (resolved : Bool) : Type 0 where
  pub same : w.entry.handle ≡ e.handle
  pub last_one : resolved ≡ true → w.done ≡ true

abbrev is_told : Option Verdict → Bool
is_told none = false
is_told (some v) = true

delivered-Handled :
    (frame : SendStatus → Notification) (o : Option Verdict) (e : TrackedSend)
    → Handled e (sweep_delivered frame o e) (is_told o)
delivered-Handled frame none e = record { same = refl; last_one = λ h. absurd (cc) }
delivered-Handled frame (some v) e = record { same = refl; last_one = λ h. refl }

handed_off-Handled :
    (id : ℕ) (p : SendProgress) (h d : Option Verdict) (e : TrackedSend)
    → p.delivered ≡ d
    → Handled e (sweep_handed_off id p h e) (is_told h && is_told d)
handed_off-Handled id p none d e q = record { same = refl; last_one = λ x. absurd (cc) }
handed_off-Handled id p (some (err x)) d e q = record { same = refl; last_one = λ y. refl }
handed_off-Handled id p (some (ok u)) none e q =
    rw q (record { same = refl; last_one = λ x. absurd (cc) })
handed_off-Handled id p (some (ok u)) (some v) e q =
    rw q (record { same = refl; last_one = λ x. refl })

weaker : {e : TrackedSend} {w : Swept} (a b : Bool) → Handled e w b → Handled e w (a && b)
weaker true b h = h
weaker false b h = record { same = h.same; last_one = λ x. absurd (cc) }

sweep_entry-Handled :
    (id : ℕ) (p : SendProgress) (e : TrackedSend)
    → Handled e (sweep_entry id p e) (is_told p.handed_off && is_told p.delivered)
unfolding sweep_entry
sweep_entry-Handled id p e = by_kind e.confirm_kind e.emitted_send_confirm
  where
    by_kind :
        (kind : ConfirmKind) (said : Bool)
        → Handled e
            (elim kind as (λ _. Swept) [
              | ConfirmKind.unicast_no_ack ↦
                  sweep_delivered (Notification.send_confirm id) p.delivered e
              | ConfirmKind.broadcast ↦
                  sweep_delivered (Notification.broadcast_confirm id) p.delivered e
              | ConfirmKind.unicast_aps_ack ↦
                  if said
                  then sweep_delivered (Notification.aps_ack_confirm id) p.delivered e
                  else sweep_handed_off id p p.handed_off e
            ])
            (is_told p.handed_off && is_told p.delivered)
    by_kind ConfirmKind.unicast_no_ack said =
        weaker (is_told p.handed_off) (is_told p.delivered)
          (delivered-Handled (Notification.send_confirm id) p.delivered e)
    by_kind ConfirmKind.broadcast said =
        weaker (is_told p.handed_off) (is_told p.delivered)
          (delivered-Handled (Notification.broadcast_confirm id) p.delivered e)
    by_kind ConfirmKind.unicast_aps_ack true =
        weaker (is_told p.handed_off) (is_told p.delivered)
          (delivered-Handled (Notification.aps_ack_confirm id) p.delivered e)
    by_kind ConfirmKind.unicast_aps_ack false =
        handed_off-Handled id p p.handed_off p.delivered e refl

module _ (id handle : ℕ) where
  -- The entry is retired, or still has its handle.
  abbrev Held : Option TrackedSend → Type 0
  Held o = (o ≡ none) ⊎ ((e : TrackedSend) × (o ≡ some e) × (e.handle ≡ handle))

  left-Held :
      (status : ℕ → SendProgress) (o : Option TrackedSend) → Held o → Held (left status id o)
  left-Held status o (inl n) = inl (ap (left status id) n)
  left-Held status o (inr (e, g, h)) =
      let one = sweep_entry-Handled id (status e.handle) e in
      elim (Bool-cases (sweep_entry id (status e.handle) e).done) [
        | inl over ↦ inl (ap (left status id) g ∙ rw over refl)
        | inr on ↦ inr (
          (sweep_entry id (status e.handle) e).entry,
          ap (left status id) g ∙ rw on refl,
          one.same ∙ h,
        )
      ]

  sweep_all-Held :
      (t : SendTracker) (ss : List (ℕ → SendProgress))
      → IsSorted t
      → Held (FlatMap.get t id)
      → IsSorted (sweep_all t ss).0 × Held (FlatMap.get (sweep_all t ss).0 id)
  unfolding sweep_all
  sweep_all-Held t [] s h = (s, h)
  sweep_all-Held t (status ∷ ss) s h =
      sweep_all-Held (sweep t status).0 ss (sweep-IsSorted t status s)
        (subst Held (sym (get-sweep t status id s)) (left-Held status (FlatMap.get t id) h))

  -- After any history of sweeps since a send was inserted in a sorted table, a sweep that sees
  -- both of its verdicts leaves it retired.
  pub resolved_retires :
      (t : SendTracker) (kind : ConfirmKind) (ss : List (ℕ → SendProgress))
      (status : ℕ → SendProgress) {h d : Verdict}
      → IsSorted t
      → (status handle).handed_off ≡ some h
      → (status handle).delivered ≡ some d
      → FlatMap.get (sweep (sweep_all (SendTracker.insert t id handle kind) ss).0 status).0 id
        ≡ none
  unfolding SendTracker.insert
  resolved_retires t kind ss status s p q =
      let start = SendTracker.insert t id handle kind in
      let (sorted, held) =
        sweep_all-Held start ss (insert-IsSorted t id (fresh handle kind) s)
          (inr (fresh handle kind, get-insert_self t id (fresh handle kind), refl)) in
      get-sweep (sweep_all start ss).0 status id sorted ∙ elim held [
        | inl n ↦ ap (left status id) n
        | inr (e, g, at) ↦
            let one = sweep_entry-Handled id (status e.handle) e in
            let told : is_told (status e.handle).handed_off && is_told (status e.handle).delivered
                ≡ true =
              rw (at, p, q) refl in
            ap (left status id) g ∙ rw (one.last_one told) refl
      ]

-- ===== src/Protocol/SendTracker/Once.antt =====
-- Histories of sweeps: each tracked send emits the frames that it owes once, in order.
use ziggurat.Base.{
  ℕ, ◌≡◌, ◌≢◌, refl, ◌∙◌, ap, ap₂, Bool, true, false, Option, none, some, List, [], ◌∷◌, ◌++◌,
  if◌then◌else◌, filterb, is_none, ok, err, arith, inl, inr, ◌⊎◌, Option-cases,
}
use ziggurat.Base.Order.{nat_ord}
use ziggurat.FlatMap
use ziggurat.FlatMap.Sorted.{IsSorted}
use ziggurat.FlatMap.StaysSorted.{insert-IsSorted}
use ziggurat.FlatMap.Everywhere.{get-insert_self}
use ziggurat.Protocol.SendTracker.Table.{left, sweep-IsSorted, sweep-frames, get-sweep}
use ziggurat.Protocol.SendTracker.Entries.{is_for, filterb-append, frames_of}
use ziggurat.Protocol.SendTracker
use ziggurat.Protocol.SendTracker.{
  SendTracker, TrackedSend, ConfirmKind, SendProgress, Notification, Swept, Verdict, SendStatus,
  DeliveryError, error_status, send_status, fresh, emitted, sweep_delivered, sweep_handed_off,
  sweep_entry, sweep,
}

-- The frames of a history of sweeps; each sweep reads the progress of the sends at its time.
unfoldable pub sweep_all : SendTracker → List (ℕ → SendProgress) → SendTracker × List Notification
sweep_all t [] = (t, [])
sweep_all t (status ∷ rest) =
    let (u, out) = sweep t status in let (v, more) = sweep_all u rest in (v, out ++ more)

-- What a send may have emitted, and whether that is all it owes.
pub data Emitted (id : ℕ) : ConfirmKind → List Notification → Bool → Type 0 where
  nothing : (kind : ConfirmKind) → Emitted id kind [] false
  confirmed :
      (s : SendStatus)
      → Emitted id ConfirmKind.unicast_no_ack (Notification.send_confirm id s ∷ []) true
  relayed :
      (s : SendStatus)
      → Emitted id ConfirmKind.broadcast (Notification.broadcast_confirm id s ∷ []) true
  handed_over :
      Emitted id ConfirmKind.unicast_aps_ack
        (Notification.send_confirm id SendStatus.success ∷ [])
        false
  failed :
      (s : SendStatus)
      → s ≢ SendStatus.success
      → Emitted id ConfirmKind.unicast_aps_ack (Notification.send_confirm id s ∷ []) true
  acked :
      (s : SendStatus)
      → Emitted id ConfirmKind.unicast_aps_ack
          (Notification.send_confirm id SendStatus.success ∷ Notification.aps_ack_confirm id s ∷ [])
          true

not_success : (x : DeliveryError) → error_status x ≢ SendStatus.success
not_success x e = ground (arith, e)

module _ (id : ℕ) where
  abbrev mine : SendTracker → List (ℕ → SendProgress) → List Notification
  mine t ss = filterb (is_for id) (sweep_all t ss).1

  abbrev after : SendTracker → List (ℕ → SendProgress) → Option TrackedSend
  after t ss = FlatMap.get (sweep_all t ss).0 id

  mine-cons :
      (t : SendTracker) (status : ℕ → SendProgress) (ss : List (ℕ → SendProgress))
      → IsSorted t
      → mine t (status ∷ ss) ≡ frames_of status id (FlatMap.get t id) ++ mine (sweep t status).0 ss
  unfolding sweep_all
  mine-cons t status ss s =
      filterb-append (is_for id) (sweep t status).1 (sweep_all (sweep t status).0 ss).1
      ∙ ap (λ xs. xs ++ mine (sweep t status).0 ss) (sweep-frames t status id s)

  after-cons :
      (t : SendTracker) (status : ℕ → SendProgress) (ss : List (ℕ → SendProgress))
      → after t (status ∷ ss) ≡ after (sweep t status).0 ss
  unfolding sweep_all
  after-cons t status ss = refl

  -- A send that is not tracked emits nothing more.
  gone :
      (t : SendTracker) (ss : List (ℕ → SendProgress))
      → IsSorted t
      → FlatMap.get t id ≡ none
      → (mine t ss ≡ []) × (after t ss ≡ none)
  unfolding sweep_all
  gone t [] s g = (refl, g)
  gone t (status ∷ ss) s g =
      let next =
        gone (sweep t status).0 ss (sweep-IsSorted t status s)
          (get-sweep t status id s ∙ ap (left status id) g) in
      (
        mine-cons t status ss s ∙ ap₂ ◌++◌ (ap (frames_of status id) g) next.0,
        after-cons t status ss ∙ next.1,
      )

  abbrev kept : Swept → Option TrackedSend
  kept w = if w.done then none else some w.entry

  -- What a sweep makes of the entry shows in the frames and in the table after it.
  swept_to :
      (t : SendTracker) (status : ℕ → SendProgress) (ss : List (ℕ → SendProgress)) (e : TrackedSend)
      (w : Swept)
      → IsSorted t
      → FlatMap.get t id ≡ some e
      → sweep_entry id (status e.handle) e ≡ w
      → (mine t (status ∷ ss) ≡ w.frames ++ mine (sweep t status).0 ss)
        × (FlatMap.get (sweep t status).0 id ≡ kept w)
  swept_to t status ss e w s g one = (
    mine-cons t status ss s
        ∙ ap (λ o. frames_of status id o ++ mine (sweep t status).0 ss) g
        ∙ ap (λ x. x.frames ++ mine (sweep t status).0 ss) one,
    get-sweep t status id s ∙ ap (left status id) g ∙ ap kept one,
  )

  -- An entry that is done with a sweep emits the frames of that sweep alone.
  retired :
      (t : SendTracker) (status : ℕ → SendProgress) (ss : List (ℕ → SendProgress)) (e : TrackedSend)
      (w : Swept)
      → IsSorted t
      → FlatMap.get t id ≡ some e
      → sweep_entry id (status e.handle) e ≡ w
      → w.done ≡ true
      → (mine t (status ∷ ss) ≡ w.frames ++ []) × (after t (status ∷ ss) ≡ none)
  unfolding sweep_all
  retired t status ss e w s g one done =
      let (emits, stays) = swept_to t status ss e w s g one in
      let (quiet, left_none) =
        gone (sweep t status).0 ss (sweep-IsSorted t status s) (stays ∙ rw done refl) in
      (emits ∙ ap (λ xs. w.frames ++ xs) quiet, left_none)

  -- An entry that owes one frame, at the verdict: it waits, or has emitted it and is gone.
  single :
      (frame : SendStatus → Notification) (e : TrackedSend)
      → ((p : SendProgress) → sweep_entry id p e ≡ sweep_delivered frame p.delivered e)
      → (t : SendTracker) (ss : List (ℕ → SendProgress)) → IsSorted t
      → FlatMap.get t id ≡ some e
      → ((mine t ss ≡ []) × (after t ss ≡ some e))
        ⊎ ((v : SendStatus) × (mine t ss ≡ frame v ∷ []) × (after t ss ≡ none))
  unfolding sweep_all
  single frame e owes t [] s g = inl (refl, g)
  single frame e owes t (status ∷ ss) s g =
      let swept_by : (o : Option Verdict)
          → (status e.handle).delivered ≡ o
          → sweep_entry id (status e.handle) e ≡ sweep_delivered frame o e =
        λ o q. owes (status e.handle) ∙ ap (λ x. sweep_delivered frame x e) q in
      elim (Option-cases (status e.handle).delivered) [
        | inl pending ↦
            let (quiet, stays) =
              swept_to t status ss e (sweep_delivered frame none e) s g (swept_by none pending) in
            elim (single frame e owes (sweep t status).0 ss (sweep-IsSorted t status s) stays) [
              | inl (m, a) ↦ inl (quiet ∙ m, a)
              | inr (v, m, a) ↦ inr (v, quiet ∙ m, a)
            ]
        | inr (v, told) ↦
            let (m, a) =
              retired t status ss e (sweep_delivered frame (some v) e) s g (swept_by (some v) told)
                refl in
            inr (send_status v, m, a)
      ]

  abbrev Outcome : ConfirmKind → SendTracker → List (ℕ → SendProgress) → Type 0
  Outcome kind t ss = Emitted id kind (mine t ss) (is_none (after t ss))

  single-Emitted :
      (kind : ConfirmKind) (frame : SendStatus → Notification) (e : TrackedSend) (t : SendTracker)
      (ss : List (ℕ → SendProgress))
      → ((v : SendStatus) → Emitted id kind (frame v ∷ []) true)
      → ((mine t ss ≡ []) × (after t ss ≡ some e))
        ⊎ ((v : SendStatus) × (mine t ss ≡ frame v ∷ []) × (after t ss ≡ none))
      → Outcome kind t ss
  single-Emitted kind frame e t ss fits (inl (m, a)) = rw (m, a) (Emitted.nothing kind)
  single-Emitted kind frame e t ss fits (inr (v, m, a)) = rw (m, a) (fits v)

  -- The two frames of an acknowledged unicast, after the handoff was confirmed.
  abbrev awaiting : ℕ → TrackedSend
  awaiting handle = emitted (fresh handle ConfirmKind.unicast_aps_ack)

  acked-Emitted :
      (t : SendTracker) (ss : List (ℕ → SendProgress)) (handle : ℕ) (first : List Notification)
      (o : Option TrackedSend)
      → ((first ≡ Notification.send_confirm id SendStatus.success ∷ mine t ss) × (o ≡ after t ss))
      → ((mine t ss ≡ []) × (after t ss ≡ some (awaiting handle)))
        ⊎ ((v : SendStatus) × (mine t ss ≡ Notification.aps_ack_confirm id v ∷ [])
            × (after t ss ≡ none))
      → Emitted id ConfirmKind.unicast_aps_ack first (is_none o)
  acked-Emitted t ss handle first o (f, p) (inl (m, a)) = rw (f, p, m, a) Emitted.handed_over
  acked-Emitted t ss handle first o (f, p) (inr (v, m, a)) = rw (f, p, m, a) (Emitted.acked v)

  -- The sweep of an acknowledged unicast that has emitted nothing, by its verdicts.
  by_handoff :
      (t : SendTracker) (status : ℕ → SendProgress) (ss : List (ℕ → SendProgress)) (handle : ℕ)
      (h d : Option Verdict)
      → IsSorted t
      → FlatMap.get t id ≡ some (fresh handle ConfirmKind.unicast_aps_ack)
      → status handle ≡ record { handed_off = h; delivered = d }
      → (FlatMap.get (sweep t status).0 id ≡ some (fresh handle ConfirmKind.unicast_aps_ack)
          → Outcome ConfirmKind.unicast_aps_ack (sweep t status).0 ss)
      → Outcome ConfirmKind.unicast_aps_ack t (status ∷ ss)
  unfolding sweep_all sweep_entry
  by_handoff t status ss handle none d s g q later =
      let e = fresh handle ConfirmKind.unicast_aps_ack in
      let (quiet, stays) =
        swept_to t status ss e (sweep_entry id (record { handed_off = none; delivered = d }) e) s g
          (ap (λ p. sweep_entry id p e) q) in
      rw quiet (later stays)
  by_handoff t status ss handle (some (err x)) d s g q later =
      let e = fresh handle ConfirmKind.unicast_aps_ack in
      let (told, over) =
        retired t status ss e
          (sweep_entry id (record { handed_off = some (err x); delivered = d }) e) s g
          (ap (λ p. sweep_entry id p e) q) refl in
      rw (told, over) (Emitted.failed (error_status x) (not_success x))
  by_handoff t status ss handle (some (ok y)) none s g q later =
      let e = fresh handle ConfirmKind.unicast_aps_ack in
      let (emits, stays) =
        swept_to t status ss e
          (sweep_entry id (record { handed_off = some (ok y); delivered = none }) e) s g
          (ap (λ p. sweep_entry id p e) q) in
      acked-Emitted (sweep t status).0 ss handle (mine t (status ∷ ss)) (after t (status ∷ ss))
        (emits, refl)
        (single (Notification.aps_ack_confirm id) (awaiting handle) (λ v. refl) (sweep t status).0
          ss (sweep-IsSorted t status s) stays)
  by_handoff t status ss handle (some (ok y)) (some v) s g q later =
      let e = fresh handle ConfirmKind.unicast_aps_ack in
      let (told, over) =
        retired t status ss e
          (sweep_entry id (record { handed_off = some (ok y); delivered = some v }) e) s g
          (ap (λ p. sweep_entry id p e) q) refl in
      rw (told, over) (Emitted.acked (send_status v))

  aps_ack :
      (handle : ℕ) (t : SendTracker) (ss : List (ℕ → SendProgress))
      → IsSorted t
      → FlatMap.get t id ≡ some (fresh handle ConfirmKind.unicast_aps_ack)
      → Outcome ConfirmKind.unicast_aps_ack t ss
  unfolding sweep_all
  aps_ack handle t [] s g = rw g (Emitted.nothing ConfirmKind.unicast_aps_ack)
  aps_ack handle t (status ∷ ss) s g =
      by_handoff t status ss handle (status handle).handed_off (status handle).delivered s g refl
        (aps_ack handle (sweep t status).0 ss (sweep-IsSorted t status s))

  -- Over any history of sweeps after a send was inserted in a sorted table, whatever progress they
  -- see, the frames under its identifier are those its kind owes, each at most once and in order:
  -- one confirm, or for an acknowledged unicast the confirm of a successful handoff before the
  -- acknowledgment and a failed handoff alone; and the send is retired exactly when it has emitted
  -- its last.
  pub confirmed_once :
      (t : SendTracker) (handle : ℕ) (kind : ConfirmKind) (ss : List (ℕ → SendProgress))
      → IsSorted t
      → let (v, out) = sweep_all (SendTracker.insert t id handle kind) ss in
        Emitted id kind (filterb (is_for id) out) (is_none (FlatMap.get v id))
  unfolding SendTracker.insert sweep_entry
  confirmed_once t handle kind ss s = by_kind kind
    where
      tracked :
          (k : ConfirmKind)
          → FlatMap.get (SendTracker.insert t id handle k) id ≡ some (fresh handle k)
      tracked k = get-insert_self t id (fresh handle k)

      sorted : (k : ConfirmKind) → IsSorted (SendTracker.insert t id handle k)
      sorted k = insert-IsSorted t id (fresh handle k) s

      by_kind : (k : ConfirmKind) → Outcome k (SendTracker.insert t id handle k) ss
      by_kind ConfirmKind.unicast_no_ack =
          let k = ConfirmKind.unicast_no_ack in
          single-Emitted k (Notification.send_confirm id) (fresh handle k)
            (SendTracker.insert t id handle k) ss Emitted.confirmed
            (single (Notification.send_confirm id) (fresh handle k) (λ p. refl)
              (SendTracker.insert t id handle k) ss (sorted k) (tracked k))
      by_kind ConfirmKind.broadcast =
          let k = ConfirmKind.broadcast in
          single-Emitted k (Notification.broadcast_confirm id) (fresh handle k)
            (SendTracker.insert t id handle k) ss Emitted.relayed
            (single (Notification.broadcast_confirm id) (fresh handle k) (λ p. refl)
              (SendTracker.insert t id handle k) ss (sorted k) (tracked k))
      by_kind ConfirmKind.unicast_aps_ack =
          aps_ack handle (SendTracker.insert t id handle ConfirmKind.unicast_aps_ack) ss
            (sorted ConfirmKind.unicast_aps_ack) (tracked ConfirmKind.unicast_aps_ack)

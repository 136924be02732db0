-- ===== src/Sends/Unicasts/Books.antt =====
-- Every operation on the unicasts runs without a panic and keeps the books.
use mathlib.Core.Option.{some-injective, some-ne-none}
use mathlib.Core.Option
use ziggurat.Base.{
  ℕ, ◌≡◌, refl, ◌∙◌, Bool, true, false, Option, none, some, List, [], ◌∷◌, if◌then◌else◌, arith,
  Bool-cases, Option-cases, inl, inr, is_none, ap, ok, err, ltb, ◌==◌,
}
use ziggurat.Base.Order.{nat_ord, key_eq}
use ziggurat.Types.{Nwk}
use ziggurat.FlatMap.{get, modify, remove}
use ziggurat.FlatMap.Sorted.{remove_old}
use ziggurat.FlatMap.Laws.{get-modify}
use ziggurat.FlatMap.Everywhere.{key_eq_self, eq_of_key_eq}
use ziggurat.FlatMap.Twice.{modify-modify, remove-modify}
use ziggurat.Sends.{Address, Verdict, Action}
use ziggurat.Sends.Ledger
use ziggurat.Sends.Ledger.{
  settled_weight, lent, lent_value, set_at, Keeps, Keeps-loans, Keeps-same, modify-Keeps,
  remove-Keeps,
}
use ziggurat.Sends.Sweep.{Runs}
use ziggurat.Sends.Unicasts.{
  Record, Unicasts, is_lent, is_awaiting_aps_ack, acked_of, report, settle, hand_off, failed,
  outcome, transmitted, give_back, retry, wait_for,
}

module _ {F W : Type 0} where
  abbrev pub waiter_of : Record F W → W
  waiter_of r = r.waiter

  abbrev pub on_loan : Record F W → Bool
  on_loan r = is_lent r.stage

  -- The frame is missing exactly while it is on loan.
  abbrev pub Ok : Record F W → Type 0
  Ok r = is_none r.frame ≡ is_lent r.stage

  abbrev pub IsValid : Unicasts F W → Type 0
  IsValid = Ledger.IsValid waiter_of on_loan Ok

  abbrev pub loans : Unicasts F W → ℕ → Bool
  loans = lent on_loan

  -- A record that is not on loan has its frame.
  pub frame_of : (r : Record F W) → Ok r → is_lent r.stage ≡ false → (x : F) × (r.frame ≡ some x)
  frame_of r h n = elim (Option-cases r.frame) [
    | inl e ↦ absurd (ground arith)
    | inr (x, e) ↦ (x, e)
  ]

  same_loans :
      (m : Unicasts F W) (id : ℕ) (r : Record F W)
      → get m id ≡ some r
      → (k : ℕ) → set_at (loans m) id (is_lent r.stage) k ≡ loans m k
  unfolding lent lent_value
  same_loans m id r g k = elim (Bool-cases (key_eq id k)) [
    | inl same ↦ rw (same, ← eq_of_key_eq id k same, g) refl
    | inr apart ↦ rw apart refl
  ]

  -- The frame is back in the table.
  abbrev back : Unicasts F W → ℕ → F → Unicasts F W
  back m id frame = modify m id (give_back frame)

  get-back :
      (m : Unicasts F W) (id : ℕ) (r : Record F W) (frame : F)
      → get m id ≡ some r
      → get (back m id frame) id ≡ some (give_back frame r)
  get-back m id r frame g = rw (get-modify m id id (give_back frame), key_eq_self id, g) refl

module _ {F W E : Type 0} where
  abbrev pub Ends : Unicasts F W → Option (Unicasts F W × List (Action F W E)) → (ℕ → Bool) → Type 0
  Ends = Runs waiter_of on_loan Ok F E

  -- What `settle` reports of a record with its frame.
  unfoldable pub final : Record F W → F → Verdict E → Option Nwk → List (Action F W E)
  final r frame result hop =
      let over = Action.settled r.waiter result frame hop ∷ [] in
      if is_awaiting_aps_ack r.stage then Action.handed_off r.waiter ∷ over else over

  pub final-weight :
      (r : Record F W) (frame : F) (result : Verdict E) (hop : Option Nwk) (w : W → ℕ)
      → settled_weight w (final r frame result hop) ≡ w r.waiter
  unfolding final settled_weight
  final-weight r frame result hop w = ground arith

  pub report-final :
      (r : Record F W) (frame : F) (result : Verdict E) (hop : Option Nwk)
      → r.frame ≡ some frame
      → report r result hop ≡ some (final r frame result hop)
  unfolding report final
  report-final r frame result hop e = rw e refl

  settle_lem :
      (m : Unicasts F W) (id : ℕ) (r : Record F W) (frame : F) (result : Verdict E)
      (hop : Option Nwk)
      → get m id ≡ some r
      → r.frame ≡ some frame
      → settle m id result hop ≡ some ((remove m id).0, final r frame result hop)
  unfolding settle
  settle_lem m id r frame result hop g e =
      rw (remove_old m id, g, settle, report-final r frame result hop e, Option.map) refl

  pub settle-Ends :
      (m : Unicasts F W) (id : ℕ) (r : Record F W) (result : Verdict E) (hop : Option Nwk)
      → IsValid m
      → get m id ≡ some r
      → is_lent r.stage ≡ false
      → Ends m (settle m id result hop) (loans m)
  settle-Ends m id r result hop v g n =
      let (frame, e) = frame_of r (v.each id r g) n in
      (
        (remove m id).0,
        final r frame result hop,
        settle_lem m id r frame result hop g e,
        Keeps-loans waiter_of on_loan Ok
            (remove-Keeps waiter_of on_loan Ok m id (final r frame result hop) v g
              (final-weight r frame result hop))
            (λ k. rw n at (same_loans m id r g k)),
      )

  -- A write to a record that leaves its waiter and its loan alone.
  pub modify-Ends :
      (m : Unicasts F W) (id : ℕ) (r : Record F W) (f : Record F W → Record F W)
      → IsValid m
      → get m id ≡ some r
      → Ok (f r)
      → (f r).waiter ≡ r.waiter
      → is_lent (f r).stage ≡ is_lent r.stage
      → Ends m (some (modify m id f, [])) (loans m)
  unfolding settled_weight
  modify-Ends m id r f v g p q l = (
    modify m id f,
    [],
    refl,
    Keeps-loans waiter_of on_loan Ok
        (modify-Keeps waiter_of on_loan Ok m id f [] v g p q (λ w. refl))
        (λ k. rw l (same_loans m id r g k)),
  )

  -- The report on a lent record: the frame is back in `m`, and then the record is written or leaves.
  module _ (m : Unicasts F W) (id : ℕ) (r : Record F W) (frame : F) (v : IsValid m)
      (g : get m id ≡ some r) where
    returned_settle :
        (result : Verdict E) (hop : Option Nwk)
        → Ends m (settle (back m id frame) id result hop) (set_at (loans m) id false)
    returned_settle result hop = (
      (remove m id).0,
      final (give_back frame r) frame result hop,
      settle_lem (back m id frame) id (give_back frame r) frame result hop (get-back m id r frame g)
            refl
          ∙ ap (λ n. some (n, final (give_back frame r) frame result hop))
              (remove-modify m id (give_back frame)),
      remove-Keeps waiter_of on_loan Ok m id (final (give_back frame r) frame result hop) v g
          (final-weight (give_back frame r) frame result hop),
    )

    returned_write :
        (f : Record F W → Record F W) (acts : List (Action F W E))
        → Ok (f (give_back frame r))
        → (f (give_back frame r)).waiter ≡ r.waiter
        → is_lent (f (give_back frame r)).stage ≡ false
        → ((w : W → ℕ) → settled_weight w acts ≡ 0)
        → Ends m (some (modify (back m id frame) id f, acts)) (set_at (loans m) id false)
    returned_write f acts p q l z = (
      modify m id (λ x. f (give_back frame x)),
      acts,
      ap (λ n. some (n, acts)) (modify-modify m id (give_back frame) f),
      Keeps-loans waiter_of on_loan Ok
          (modify-Keeps waiter_of on_loan Ok m id (λ x. f (give_back frame x)) acts v g p q z)
          (λ k. rw l refl),
    )

    hand_off-Ends :
        (now : ℕ) (acked : Bool)
        → Ends m (hand_off (back m id frame) id now acked) (set_at (loans m) id false)
    unfolding hand_off settled_weight
    hand_off-Ends now acked = elim (Option-cases (wait_for r.confirm acked)) [
      | inl e ↦ rw (get-back m id r frame g, hand_off, e) (returned_settle (ok tt) none)
      | inr (wait, e) ↦
          rw (get-back m id r frame g, hand_off, e)
            (returned_write _ (Action.handed_off r.waiter ∷ []) refl refl refl (λ w. refl))
    ]

    failed-Ends :
        (e : E) (now delay : ℕ) (p : Option Address)
        → Ends m (failed (back m id frame) id r e now delay p) (set_at (loans m) id false)
    unfolding failed settled_weight
    failed-Ends e now delay none = elim (Bool-cases (r.attempts_remaining == 0)) [
      | inl last ↦ rw last (returned_settle (err e) (some r.next_hop))
      | inr more ↦ rw more (returned_write (retry now delay) [] refl refl refl (λ w. refl))
    ]
    failed-Ends e now delay (some a) = elim (Bool-cases (ltb now r.deadline)) [
      | inl held ↦ rw held (returned_write _ [] refl refl refl (λ w. refl))
      | inr late ↦ rw late (returned_settle (err e) none)
    ]

    outcome-Ends :
        (acked : Bool) (result : Verdict E) (now delay : ℕ)
        → Ends m (outcome (back m id frame) id r acked result now delay) (set_at (loans m) id false)
    unfolding outcome
    outcome-Ends acked (ok u) now delay = hand_off-Ends now acked
    outcome-Ends true (err e) now delay = hand_off-Ends now true
    outcome-Ends false (err e) now delay = failed-Ends e now delay r.poll_address

    -- A lent frame comes back: no panic, and its loan is over.
    pub transmitted-Ends :
        (result : Verdict E) (now delay : ℕ)
        → is_lent r.stage ≡ true
        → Ends m (transmitted m id frame result now delay) (set_at (loans m) id false)
    unfolding transmitted
    transmitted-Ends result now delay l = elim (Option-cases (acked_of r.stage)) [
      | inl e ↦ absurd (ground arith)
      | inr (acked, e) ↦ rw (g, transmitted, e) (outcome-Ends acked result now delay)
    ]

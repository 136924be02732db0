-- ===== src/Sends/Broadcasts/Books.antt =====
-- The books of sends/broadcasts.rs: what a call must keep, and the calls that settle or write a record.
use mathlib.Core.Option.{some-injective, some-ne-none}
use mathlib.Core.Option
use ziggurat.Base.{
  ℕ, ◌≡◌, refl, ◌∙◌, Bool, true, false, Option, none, some, List, [], ◌∷◌, if◌then◌else◌, arith,
  Bool-cases, Option-cases, inl, inr, is_none, ap, ◌==◌,
}
use ziggurat.Base.Order.{nat_ord, key_eq}
use ziggurat.FlatMap.{get, modify, remove}
use ziggurat.FlatMap.Sorted.{remove_old}
use ziggurat.FlatMap.Laws.{get-modify}
use ziggurat.FlatMap.Everywhere.{key_eq_self, eq_of_key_eq}
use ziggurat.FlatMap.Twice.{remove-modify}
use ziggurat.Sends.{Verdict, Action}
use ziggurat.Sends.Ledger
use ziggurat.Sends.Ledger.{
  settled_weight, lent, lent_value, set_at, Keeps, Keeps-loans, Keeps-same, modify-Keeps,
  remove-Keeps,
}
use ziggurat.Sends.Sweep.{Runs}
use ziggurat.Sends.Broadcasts.{
  Record, Schedule, Broadcasts, is_lent, is_idle, is_once, report, settle, rearmed,
}

-- The copies that a schedule still owes.
abbrev pub copies_left : Schedule → ℕ
copies_left Schedule.once = 0
copies_left (Schedule.passive_ack key copies next) = copies
copies_left (Schedule.fixed_interval interval copies next) = copies

pub is_once-rearmed :
    (s : Schedule) (now interval : ℕ) → is_once (rearmed now interval s) ≡ is_once s
is_once-rearmed Schedule.once now interval = refl
is_once-rearmed (Schedule.passive_ack key copies next) now interval = refl
is_once-rearmed (Schedule.fixed_interval every copies next) now interval = refl

module _ {F W E : Type 0} where
  abbrev pub waiter_of : Record F W E → W
  waiter_of r = r.waiter

  abbrev pub on_loan : Record F W E → Bool
  on_loan r = is_lent r.copy

  -- The frame is missing exactly while a copy is on loan; a single copy is never idle nor handed
  -- off; and an idle record of which no copy came back owes one.
  pub record Ok (r : Record F W E) : Type 0 where
    pub framed : is_none r.frame ≡ is_lent r.copy
    pub single : is_once r.schedule ≡ true → (is_idle r.copy ≡ false) × (r.handed_off ≡ false)
    pub owing :
        is_idle r.copy ≡ true
        → r.handed_off ≡ false
        → is_none r.last_error ≡ true
        → (copies_left r.schedule == 0) ≡ false

  abbrev pub IsValid : Broadcasts F W E → Type 0
  IsValid = Ledger.IsValid waiter_of on_loan Ok

  abbrev pub loans : Broadcasts F W E → ℕ → Bool
  loans = lent on_loan

  abbrev pub Ends :
      Broadcasts F W E → Option (Broadcasts F W E × List (Action F W E)) → (ℕ → Bool) → Type 0
  Ends = Runs waiter_of on_loan Ok F E

  -- What `settle` reports of a record with its frame.
  unfoldable pub final : Record F W E → F → Verdict E → List (Action F W E)
  final r frame result =
      let over = Action.settled r.waiter result frame none ∷ [] in
      if r.handed_off then Action.handed_off r.waiter ∷ over else over

  pub final-weight :
      (r : Record F W E) (frame : F) (result : Verdict E) (w : W → ℕ)
      → settled_weight w (final r frame result) ≡ w r.waiter
  unfolding final settled_weight
  final-weight r frame result w = ground arith

  pub report-final :
      (r : Record F W E) (frame : F) (result : Verdict E)
      → r.frame ≡ some frame
      → report r result ≡ some (final r frame result)
  unfolding report final
  report-final r frame result e = rw e refl

  -- A record that is not on loan has its frame.
  pub frame_of : (r : Record F W E) → Ok r → is_lent r.copy ≡ false → (x : F) × (r.frame ≡ some x)
  frame_of r h n = elim (Option-cases r.frame) [
    | inl e ↦ absurd (ground (arith, h.framed))
    | inr (x, e) ↦ (x, e)
  ]

  settle_lem :
      (m : Broadcasts F W E) (id : ℕ) (r : Record F W E) (frame : F) (result : Verdict E)
      → get m id ≡ some r
      → r.frame ≡ some frame
      → settle m id result ≡ some ((remove m id).0, final r frame result)
  unfolding settle
  settle_lem m id r frame result g e =
      rw (remove_old m id, g, settle, report-final r frame result e, Option.map) refl

  same_loans :
      (m : Broadcasts F W E) (id : ℕ) (r : Record F W E)
      → get m id ≡ some r
      → (k : ℕ) → set_at (loans m) id (is_lent r.copy) k ≡ loans m k
  unfolding lent lent_value
  same_loans m id r g k = elim (Bool-cases (key_eq id k)) [
    | inl same ↦ rw (same, ← eq_of_key_eq id k same, g) refl
    | inr apart ↦ rw apart refl
  ]

  pub settle-Ends :
      (m : Broadcasts F W E) (id : ℕ) (r : Record F W E) (result : Verdict E)
      → IsValid m
      → get m id ≡ some r
      → is_lent r.copy ≡ false
      → Ends m (settle m id result) (loans m)
  settle-Ends m id r result v g n =
      let (frame, e) = frame_of r (v.each id r g) n in
      (
        (remove m id).0,
        final r frame result,
        settle_lem m id r frame result g e,
        Keeps-loans waiter_of on_loan Ok
            (remove-Keeps waiter_of on_loan Ok m id (final r frame result) v g
              (final-weight r frame result))
            (λ k. rw n at (same_loans m id r g k)),
      )

  -- A write to a record that leaves its waiter and its loan alone.
  pub modify-Ends :
      (m : Broadcasts F W E) (id : ℕ) (r : Record F W E) (f : Record F W E → Record F W E)
      → IsValid m
      → get m id ≡ some r
      → Ok (f r)
      → (f r).waiter ≡ r.waiter
      → is_lent (f r).copy ≡ is_lent r.copy
      → Ends m (some (modify m id f, [])) (loans m)
  unfolding settled_weight
  modify-Ends m id r f v g p q l = (
    modify m id f,
    [],
    refl,
    Keeps-loans waiter_of on_loan Ok
        (modify-Keeps waiter_of on_loan Ok m id f [] v g p q (λ w. refl))
        (λ k. rw l (same_loans m id r g k)),
  )

  get-write :
      (m : Broadcasts F W E) (id : ℕ) (r : Record F W E) (f : Record F W E → Record F W E)
      → get m id ≡ some r
      → get (modify m id f) id ≡ some (f r)
  get-write m id r f g = rw (get-modify m id id f, key_eq_self id, g) refl

  module _ (m : Broadcasts F W E) (id : ℕ) (r : Record F W E) (v : IsValid m)
      (g : get m id ≡ some r) (f : Record F W E → Record F W E) (frame : F)
      (framed : (f r).frame ≡ some frame) (same : (f r).waiter ≡ r.waiter) where
    -- A lent record that was written is settled.
    pub written_settle :
        (result : Verdict E) → Ends m (settle (modify m id f) id result) (set_at (loans m) id false)
    written_settle result = (
      (remove m id).0,
      final (f r) frame result,
      settle_lem (modify m id f) id (f r) frame result (get-write m id r f g) framed
          ∙ ap (λ n. some (n, final (f r) frame result)) (remove-modify m id f),
      remove-Keeps waiter_of on_loan Ok m id (final (f r) frame result) v g
          (λ w. final-weight (f r) frame result w ∙ ap w same),
    )

    -- A lent record is written, with its frame back.
    pub written :
        (acts : List (Action F W E))
        → Ok (f r)
        → is_lent (f r).copy ≡ false
        → ((w : W → ℕ) → settled_weight w acts ≡ 0)
        → Ends m (some (modify m id f, acts)) (set_at (loans m) id false)
    written acts p l z = (
      modify m id f,
      acts,
      refl,
      Keeps-loans waiter_of on_loan Ok (modify-Keeps waiter_of on_loan Ok m id f acts v g p same z)
          (λ k. rw l refl),
    )

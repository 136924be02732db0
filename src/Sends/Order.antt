-- ===== src/Sends/Order.antt =====
-- The order in which the sender gets frames: `best_queued` of both tables and `dequeue` of `Sends`.
use ziggurat.Base.{
  ℕ, ◌<◌, ◌≤◌, ◌⊎◌, ltb, ◌≡◌, refl, sym, ap, subst, Bool, true, false, Option, none, some, List, [],
  ◌∷◌, ◌++◌, map, filterb, if◌then◌else◌, arith, inl, inr, Bool-cases, Option-cases, All,
}
use mathlib.Core.Option.{some-injective, some-ne-none}
use ziggurat.Base.Order.{nat_ord}
use ziggurat.FlatMap.{FlatMap, get}
use ziggurat.FlatMap.Entries.{All-get}
use ziggurat.Sends.{TxPriority, rank, priority_le, max_from, max_by_priority}
use ziggurat.Sends.Candidates.{ready_record, ready_priority, chosen_ready}
use ziggurat.FlatMap.Sorted.{IsSorted}
use ziggurat.Sends.Front.{Sends, best, tagged}
use ziggurat.Sends.Unicasts
use ziggurat.Sends.Broadcasts

priority_le_refl : (x : ℕ × TxPriority) → priority_le x x ≡ true
priority_le_refl x = ground arith

priority_le_trans :
    (x y z : ℕ × TxPriority)
    → priority_le x y ≡ true
    → priority_le y z ≡ true
    → priority_le x z ≡ true
priority_le_trans x y z h k = ground arith

priority_le_total : (x y : ℕ × TxPriority) → priority_le x y ≡ false → priority_le y x ≡ true
priority_le_total x y h = ground arith

-- The higher priority is later in the order, and among equal priorities the older id.
priority_le_cases :
    (x y : ℕ × TxPriority)
    → priority_le x y ≡ true
    → (rank x.1 < rank y.1) ⊎ ((rank x.1 ≡ rank y.1) × (y.0 ≤ x.0))
priority_le_cases x y h = elim (Bool-cases (ltb (rank x.1) (rank y.1))) [
  | inl higher ↦ inl (ground arith)
  | inr not_higher ↦ inr (ground arith)
]

module _ {A : Type 0} (key : A → ℕ × TxPriority) where
  -- Each element comes no later than the maximum.
  abbrev Below : A → List A → Type 0
  Below z = All (λ y. priority_le (key y) (key z) ≡ true)

  abbrev Best : A → List A → A → Type 0
  Best x xs z = (priority_le (key x) (key z) ≡ true) × Below z xs

  max_from_step :
      (x y : A) (ys : List A) (z : A)
      → (if priority_le (key x) (key y) then y else x) ≡ z
      → max_from key x (y ∷ ys) ≡ max_from key z ys
  unfolding max_from
  max_from_step x y ys z e = ap (λ u. max_from key u ys) e

  max_from-Below :
      (x : A) (xs : List A)
      → (priority_le (key x) (key (max_from key x xs)) ≡ true) × Below (max_from key x xs) xs
  unfolding max_from
  max_from-Below x [] = (priority_le_refl (key x), tt)
  max_from-Below x (y ∷ ys) = elim (Bool-cases (priority_le (key x) (key y))) [
    | inl more ↦
        let (h, below) = max_from-Below y ys in
        subst (Best x (y ∷ ys)) (sym (max_from_step x y ys y (rw more refl)))
          (priority_le_trans (key x) (key y) _ more h, (h, below))
    | inr less ↦
        let (h, below) = max_from-Below x ys in
        subst (Best x (y ∷ ys)) (sym (max_from_step x y ys x (rw less refl))) (
          h,
          (priority_le_trans (key y) (key x) _ (priority_le_total (key x) (key y) less) h, below),
        )
  ]

  pub max_by_priority-Below : (xs : List A) {z : A} → max_by_priority key xs ≡ some z → Below z xs
  unfolding max_by_priority
  max_by_priority-Below [] {z} e = tt
  max_by_priority-Below (x ∷ xs) {z} e =
      subst (λ y. Below y (x ∷ xs)) (some-injective _ z e) (max_from-Below x xs)

  max_by_priority-none : (xs : List A) → max_by_priority key xs ≡ none → xs ≡ []
  unfolding max_by_priority
  max_by_priority-none [] e = refl
  max_by_priority-none (x ∷ xs) e = absurd (some-ne-none _ e)

module _ {V : Type 0} (priority : V → TxPriority) (ready : V → Bool) where
  abbrev candidates : List (ℕ × V) → List (ℕ × TxPriority)
  candidates es = map (λ e. (e.0, priority e.1)) (filterb (λ e. ready e.1) es)

  -- What holds of the candidates candidates holds of every ready record.
  of_listed :
      (P : ℕ × TxPriority → Type 0) (es : List (ℕ × V))
      → All P (candidates es)
      → All (λ e. ready e.1 ≡ true → P (e.0, priority e.1)) es
  of_listed P [] a = tt
  of_listed P ((k, r) ∷ es) a = elim (Bool-cases (ready r)) [
    | inl t ↦ let b = rw t at a in (λ h. b.0, of_listed P es b.1)
    | inr f ↦ let b = rw f at a in (λ h. absurd (ground arith), of_listed P es b)
  ]

  -- A ready record comes no later than the best one, and there is a best one.
  best_first :
      (m : FlatMap ℕ V) (k : ℕ) (r : V)
      → get m k ≡ some r
      → ready r ≡ true
      → (c : ℕ × TxPriority) × (max_by_priority (λ e. e) (candidates m.entries) ≡ some c)
        × (priority_le (k, priority r) c ≡ true)
  best_first m k r g t = elim (Option-cases (max_by_priority (λ e. e) (candidates m.entries))) [
    | inl e ↦
        let empty = max_by_priority-none (λ x. x) (candidates m.entries) e in
        absurd (
          All-get (λ x. ready x.1 ≡ true → ⊥) m k r (of_listed (λ x. ⊥) m.entries (rw empty tt)) g
            t)
    | inr (c, e) ↦ (
      c,
      e,
      All-get (λ x. ready x.1 ≡ true → priority_le (x.0, priority x.1) c ≡ true) m k r
          (of_listed (λ x. priority_le x c ≡ true) m.entries
            (max_by_priority-Below (λ x. x) (candidates m.entries) e))
          g t,
    )
  ]

abbrev pub Candidate : Type 0
Candidate = (ℕ × TxPriority) × Bool

-- Of two candidates, each comes no later than the one chosen.
first_chosen :
    (c : ℕ × TxPriority) (p : Option (ℕ × TxPriority))
    → (z : Candidate) × (max_by_priority (λ x. x.0) (tagged true (some c) ++ tagged false p)
        ≡ some z)
      × (priority_le c z.0 ≡ true)
unfolding max_by_priority
first_chosen c p =
    let xs = tagged false p in
    (_, refl, (max_by_priority-Below {A = Candidate} (λ x. x.0) ((c, true) ∷ xs) refl).0)

second_chosen :
    (o : Option (ℕ × TxPriority)) (c : ℕ × TxPriority)
    → (z : Candidate) × (max_by_priority (λ x. x.0) (tagged true o ++ tagged false (some c))
        ≡ some z)
      × (priority_le c z.0 ≡ true)
unfolding max_by_priority
second_chosen none c =
    (_, refl, (max_by_priority-Below {A = Candidate} (λ x. x.0) ((c, false) ∷ []) refl).0)
second_chosen (some d) c = (
  _,
  refl,
  (max_by_priority-Below {A = Candidate} (λ x. x.0) ((d, true) ∷ (c, false) ∷ []) refl).1.0,
)

module _ {F W E : Type 0} where
  best_before :
      (s : Sends F W E) (now : ℕ) (unicast : Bool) (k : ℕ) {p : TxPriority}
      → ready_priority s now unicast k ≡ some p
      → (z : Candidate) × (best s now ≡ some z) × (priority_le (k, p) z.0 ≡ true)
  unfolding best Unicasts.best_queued Broadcasts.best_queued
  best_before s now true k {p} due =
      let (r, g, t, same) =
        ready_record (λ x. x.priority) (Unicasts.ready now) (get s.unicasts k) due in
      let (c, e, h) = best_first (λ x. x.priority) (Unicasts.ready now) s.unicasts k r g t in
      let (z, f, i) = first_chosen c (Broadcasts.best_queued s.broadcasts now) in
      (z, rw e f, priority_le_trans (k, p) c z.0 (rw (sym same) h) i)
  best_before s now false k {p} due =
      let (r, g, t, same) =
        ready_record (λ x. x.priority) (Broadcasts.ready now) (get s.broadcasts k) due in
      let (c, e, h) = best_first (λ x. x.priority) (Broadcasts.ready now) s.broadcasts k r g t in
      let (z, f, i) = second_chosen (Unicasts.best_queued s.unicasts now) c in
      (z, rw e f, priority_le_trans (k, p) c z.0 (rw (sym same) h) i)

  -- If a send of sorted tables of unicasts and broadcasts is ready, then a ready one is chosen for
  -- the sender, and its priority is above that of the first, by rank, or the ranks are equal and
  -- its id is at most that of the first: the highest priority goes out, and among equal ones the
  -- oldest send.
  pub best_order :
      (s : Sends F W E) (now : ℕ) (unicast : Bool) (k : ℕ) {p : TxPriority}
      → IsSorted s.unicasts
      → IsSorted s.broadcasts
      → ready_priority s now unicast k ≡ some p
      → (z : Candidate) × (best s now ≡ some z)
        × (ready_priority s now z.1 z.0.0 ≡ some z.0.1)
        × ((rank p < rank z.0.1) ⊎ ((rank p ≡ rank z.0.1) × (z.0.0 ≤ k)))
  best_order s now unicast k {p} i j due =
      let (z, chosen, before) = best_before s now unicast k due in
      (z, chosen, chosen_ready s now i j chosen, priority_le_cases (k, p) z.0 before)

-- ===== src/Sends/Candidates.antt =====
-- What `best` of the send tables scans: the records that are ready.
use mathlib.Core.Option.{some-injective, some-ne-none}
use ziggurat.Base.{
  ℕ, ◌≡◌, refl, sym, subst, Bool, true, false, Option, none, some, List, [], ◌∷◌, ◌++◌, arith, inl,
  inr, Bool-cases, All, map, filterb, if◌then◌else◌,
}
use ziggurat.Base.Order.{nat_ord}
use ziggurat.FlatMap.{FlatMap, get}
use ziggurat.FlatMap.Sorted.{IsSorted}
use ziggurat.FlatMap.Entries.{get-All}
use ziggurat.Sends.{TxPriority, max_from, max_by_priority, priority_le}
use ziggurat.Sends.Front.{Sends, tagged, best}
use ziggurat.Sends.Unicasts
use ziggurat.Sends.Unicasts.{Unicasts}
use ziggurat.Sends.Broadcasts
use ziggurat.Sends.Broadcasts.{Broadcasts}

-- The maximum is one of the list.
module _ {ℓ κ} {A : Type ℓ} (key : A → ℕ × TxPriority) (P : A → Type κ) where
  max_from-All : (x : A) (xs : List A) → P x → All P xs → P (max_from key x xs)
  unfolding max_from
  max_from-All x [] p a = p
  max_from-All x (y ∷ ys) p a = elim (Bool-cases (priority_le (key x) (key y))) [
    | inl more ↦ rw (more, max_from) (max_from-All y ys a.0 a.1)
    | inr less ↦ rw (less, max_from) (max_from-All x ys p a.1)
  ]

  pub max_by_priority-All : (xs : List A) {x : A} → All P xs → max_by_priority key xs ≡ some x → P x
  unfolding max_by_priority
  max_by_priority-All [] {x} a e = absurd (some-ne-none x (sym e))
  max_by_priority-All (y ∷ ys) {x} a e = subst P (some-injective _ x e) (max_from-All y ys a.0 a.1)

-- What a scan of a table's ready records lists.
module _ {V : Type 0} (priority : V → TxPriority) (ready : V → Bool) where
  abbrev pub if_ready : Option V → Option TxPriority
  if_ready none = none
  if_ready (some r) = if ready r then some (priority r) else none

  pub ready_record :
      (o : Option V) {p : TxPriority}
      → if_ready o ≡ some p
      → (r : V) × (o ≡ some r) × (ready r ≡ true) × (priority r ≡ p)
  ready_record none e = absurd (ground arith)
  ready_record (some r) e = (r, refl, ground arith, ground arith)

  ready_entries :
      (m : FlatMap ℕ V) (es : List (ℕ × V))
      → All (λ e. get m e.0 ≡ some e.1) es
      → All {A = ℕ × TxPriority}
          (λ c. if_ready (get m c.0) ≡ some c.1)
          (map (λ e. (e.0, priority e.1)) (filterb (λ e. ready e.1) es))
  ready_entries m [] a = tt
  ready_entries m ((k, r) ∷ es) a = elim (Bool-cases (ready r)) [
    | inl t ↦ rw t (rw (a.0, t) refl, ready_entries m es a.1)
    | inr f ↦ rw f (ready_entries m es a.1)
  ]

  best_ready :
      (m : FlatMap ℕ V) {c : ℕ × TxPriority}
      → IsSorted m
      → max_by_priority
          (λ e. e)
          (map (λ e. (e.0, priority e.1)) (filterb (λ e. ready e.1) m.entries))
        ≡ some c
      → if_ready (get m c.0) ≡ some c.1
  best_ready m s e =
      max_by_priority-All (λ x. x) (λ c. if_ready (get m c.0) ≡ some c.1) _
        (ready_entries m m.entries (get-All _ m s (λ k v g. g))) e

All-append : {A : Type 0} (P : A → Type 0) (xs ys : List A) → All P xs → All P ys → All P (xs ++ ys)
All-append P [] ys a b = b
All-append P (x ∷ xs) ys a b = (a.0, All-append P xs ys a.1 b)

All-tagged :
    (P : (ℕ × TxPriority) × Bool → Type 0) (kind : Bool) (o : Option (ℕ × TxPriority))
    → ((c : ℕ × TxPriority) → o ≡ some c → P (c, kind))
    → All P (tagged kind o)
All-tagged P kind none h = tt
All-tagged P kind (some c) h = (h c refl, tt)

module _ {F W E : Type 0} where
  -- The priority of a send that is ready, in the table of unicasts or in that of broadcasts.
  abbrev pub ready_priority : Sends F W E → ℕ → Bool → ℕ → Option TxPriority
  ready_priority s now true k = if_ready (λ r. r.priority) (Unicasts.ready now) (get s.unicasts k)
  ready_priority s now false k =
      if_ready (λ r. r.priority) (Broadcasts.ready now) (get s.broadcasts k)

  -- The chosen send is ready.
  pub chosen_ready :
      (s : Sends F W E) (now : ℕ) {c : (ℕ × TxPriority) × Bool}
      → IsSorted s.unicasts
      → IsSorted s.broadcasts
      → best s now ≡ some c
      → ready_priority s now c.1 c.0.0 ≡ some c.0.1
  unfolding best Unicasts.best_queued Broadcasts.best_queued
  chosen_ready s now i j e =
      max_by_priority-All (λ y. y.0) (λ c. ready_priority s now c.1 c.0.0 ≡ some c.0.1) _
        (All-append _ (tagged true (Unicasts.best_queued s.unicasts now))
          (tagged false (Broadcasts.best_queued s.broadcasts now))
          (All-tagged _ true _
            (λ c e. best_ready (λ x. x.priority) (Unicasts.ready now) s.unicasts i e))
          (All-tagged _ false _
            (λ c e. best_ready (λ x. x.priority) (Broadcasts.ready now) s.broadcasts j e)))
        e

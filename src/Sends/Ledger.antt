-- ===== src/Sends/Ledger.antt =====
-- What a mutation of a send table may do: the books that its operations keep. A table is a map from
-- ids to records; a record has a waiter, is on loan to the radio or not, and satisfies `Ok`.
use mathlib.Core.Option.{some-injective, some-ne-none}
use mathlib.Core.Option
use ziggurat.Base.{
  ℕ, ◌+◌, ◌≡◌, refl, sym, ◌∙◌, subst, Bool, false, Option, none, some, List, [], ◌∷◌, ◌++◌,
  if◌then◌else◌, arith, Bool-cases, inl, inr, ap,
}
use ziggurat.Base.Order.{nat_ord, key_eq}
use ziggurat.FlatMap.{FlatMap, get, modify, insert, remove}
use ziggurat.FlatMap.Sorted.{IsSorted}
use ziggurat.FlatMap.StaysSorted.{modify-IsSorted, insert-IsSorted, remove-IsSorted}
use ziggurat.FlatMap.Laws.{get-insert, get-modify, get-remove}
use ziggurat.FlatMap.Everywhere.{
  Everywhere, Everywhere-modify, Everywhere-insert, Everywhere-remove, eq_of_key_eq,
}
use ziggurat.FlatMap.Totals.{total, total-modify, total-remove}
use ziggurat.Sends.{Action}

-- The weight of the waiters whose send an action list settles.
module _ {F W E : Type 0} (w : W → ℕ) where
  unfoldable pub settled_weight : List (Action F W E) → ℕ
  settled_weight [] = 0
  settled_weight (Action.handed_off waiter ∷ acts) = settled_weight acts
  settled_weight (Action.settled waiter result frame hop ∷ acts) = w waiter + settled_weight acts

  pub settled_weight-append :
      (acts bs : List (Action F W E))
      → settled_weight (acts ++ bs) ≡ settled_weight acts + settled_weight bs
  unfolding settled_weight
  settled_weight-append [] bs = omega arith
  settled_weight-append (Action.handed_off waiter ∷ acts) bs = settled_weight-append acts bs
  settled_weight-append (Action.settled waiter result frame hop ∷ acts) bs =
      omega (arith, settled_weight-append acts bs)

module _ {V : Type 0} (is_lent : V → Bool) where
  unfoldable pub lent_value : Option V → Bool
  lent_value none = false
  lent_value (some v) = is_lent v

  unfoldable pub lent : FlatMap ℕ V → ℕ → Bool
  lent m k = lent_value (get m k)

-- The loans after `id` was lent or returned.
abbrev pub set_at : (ℕ → Bool) → ℕ → Bool → ℕ → Bool
set_at f id b k = if key_eq id k then b else f k

module _ {V W : Type 0} (waiter : V → W) (is_lent : V → Bool) (Ok : V → Type 0) where
  pub record IsValid (m : FlatMap ℕ V) : Type 0 where
    pub sorted : IsSorted m
    pub each : Everywhere (λ k. Ok) m

  abbrev pub live : (W → ℕ) → FlatMap ℕ V → ℕ
  live w m = total (λ v. w (waiter v)) m

  -- From `m` to `n` with the actions `acts`: `n` is valid, its loans are `loans`, each waiter is live
  -- or settled, and no id appears.
  pub record Keeps (F E : Type 0) (m n : FlatMap ℕ V) (acts : List (Action F W E))
      (loans : ℕ → Bool) : Type 0 where
    pub valid : IsValid n
    pub loaned : (k : ℕ) → lent is_lent n k ≡ loans k
    pub conserved : (w : W → ℕ) → live w m ≡ live w n + settled_weight w acts
    pub known : (k : ℕ) → get m k ≡ none → get n k ≡ none

  pub Keeps-loans :
      {F E : Type 0} {m n : FlatMap ℕ V} {acts : List (Action F W E)} {f g : ℕ → Bool}
      → Keeps F E m n acts f
      → ((k : ℕ) → f k ≡ g k)
      → Keeps F E m n acts g
  Keeps-loans h e = record {
    valid = h.valid;
    loaned = λ k. h.loaned k ∙ e k;
    conserved = h.conserved;
    known = h.known;
  }

  -- A mutation with no effect.
  pub Keeps-same : (F E : Type 0) (m : FlatMap ℕ V) → IsValid m → Keeps F E m m [] (lent is_lent m)
  unfolding settled_weight
  Keeps-same F E m v = record {
    valid = v;
    loaned = λ k. refl;
    conserved = λ w. omega arith;
    known = λ k e. e;
  }

  lent-modify :
      (m : FlatMap ℕ V) (id : ℕ) (f : V → V) {v : V} (k : ℕ)
      → get m id ≡ some v
      → lent is_lent (modify m id f) k ≡ set_at (lent is_lent m) id (is_lent (f v)) k
  unfolding lent lent_value
  lent-modify m id f {v} k g = elim (Bool-cases (key_eq id k)) [
    | inl same ↦
        let e = eq_of_key_eq id k same in rw (get-modify m id k f, same, ← e, g, Option.map) refl
    | inr apart ↦ rw (get-modify m id k f, apart) refl
  ]

  known-modify :
      (m : FlatMap ℕ V) (id : ℕ) (f : V → V) (k : ℕ) → get m k ≡ none → get (modify m id f) k ≡ none
  known-modify m id f k e = get-modify m id k f ∙ rw e (ground arith)

  -- One record changes and keeps its waiter; nothing is settled.
  pub modify-Keeps :
      {F E : Type 0} (m : FlatMap ℕ V) (id : ℕ) (f : V → V) {v : V} (acts : List (Action F W E))
      → IsValid m
      → get m id ≡ some v
      → Ok (f v)
      → waiter (f v) ≡ waiter v
      → ((w : W → ℕ) → settled_weight w acts ≡ 0)
      → Keeps F E m (modify m id f) acts (set_at (lent is_lent m) id (is_lent (f v)))
  modify-Keeps m id f {v} acts i g p q z = record {
    valid = record {
      sorted = modify-IsSorted m id f i.sorted;
      each =
          Everywhere-modify (λ k. Ok) m id f i.each
            (λ u h. subst (λ x. Ok (f x)) (some-injective v u (sym g ∙ h)) p);
    };
    loaned = λ k. lent-modify m id f k g;
    conserved = λ w. omega (arith, total-modify (λ u. w (waiter u)) m id f g, ap w q, z w);
    known = known-modify m id f;
  }

  lent-remove :
      (m : FlatMap ℕ V) (id k : ℕ)
      → IsSorted m
      → lent is_lent (remove m id).0 k ≡ set_at (lent is_lent m) id false k
  unfolding lent lent_value
  lent-remove m id k s = rw (get-remove m id k s) (ground arith)

  -- One record leaves, and its waiter is settled.
  pub remove-Keeps :
      {F E : Type 0} (m : FlatMap ℕ V) (id : ℕ) {v : V} (acts : List (Action F W E))
      → IsValid m
      → get m id ≡ some v
      → ((w : W → ℕ) → settled_weight w acts ≡ w (waiter v))
      → Keeps F E m (remove m id).0 acts (set_at (lent is_lent m) id false)
  remove-Keeps m id {v} acts i g z = record {
    valid = record {
      sorted = remove-IsSorted m id i.sorted;
      each = Everywhere-remove (λ k. Ok) m id i.sorted i.each;
    };
    loaned = λ k. lent-remove m id k i.sorted;
    conserved = λ w. omega (arith, total-remove (λ u. w (waiter u)) m id g, z w);
    known = λ k e. get-remove m id k i.sorted ∙ rw e (ground arith);
  }

  -- A record enters under a new id.
  pub insert_new : (m : FlatMap ℕ V) (id : ℕ) (v : V) → IsValid m → Ok v → IsValid (insert m id v).0
  insert_new m id v i p = record {
    sorted = insert-IsSorted m id v i.sorted;
    each = Everywhere-insert (λ k. Ok) m id v i.each p;
  }

  pub lent-insert :
      (m : FlatMap ℕ V) (id : ℕ) (v : V) (k : ℕ)
      → get m id ≡ none
      → is_lent v ≡ false
      → lent is_lent (insert m id v).0 k ≡ lent is_lent m k
  unfolding lent lent_value
  lent-insert m id v k g e = elim (Bool-cases (key_eq id k)) [
    | inl same ↦ rw (get-insert m id k v, same, ← eq_of_key_eq id k same, g) e
    | inr apart ↦ rw (get-insert m id k v, apart) refl
  ]

-- ===== src/FlatMap/Totals.antt =====
-- The sum of a weight over the values of a map, and what the operations do to it.
use ziggurat.Base.{
  ℕ, ◌+◌, ◌≡◌, refl, sym, ◌∙◌, Option, none, some, List, [], ◌∷◌, arith, is_none, if◌then◌else◌,
}
use mathlib.Core.Option
use ziggurat.Base.Order.{Ord}
use ziggurat.FlatMap.{FlatMap, insert, remove, modify, retain_mut}
use ziggurat.FlatMap.Sorted.{
  Sorted, IsSorted, lookup, put, cut, alter, get-eq, insert-eq, remove-eq, modify-eq,
}
use ziggurat.FlatMap.StaysSorted.{retain-IsSorted}
use ziggurat.FlatMap.{get, retain}
use ziggurat.FlatMap.Laws.{get-retain, kept}
use ziggurat.FlatMap.Drain.{unselected}

module _ {ℓ κ} {K : Type ℓ} {V : Type κ} (w : V → ℕ) where
  unfoldable pub total_of : List (K × V) → ℕ
  total_of [] = 0
  total_of ((k, v) ∷ es) = w v + total_of es

  unfoldable pub total : FlatMap K V → ℕ
  total m = total_of m.entries

module _ {ℓ κ} {K : Type ℓ} {V : Type κ} ⦃o : Ord K⦄ (w : V → ℕ) where
  total-put :
      (es : List (K × V)) (q : K) (v : V)
      → lookup es q ≡ none
      → total_of w (put es q v) ≡ total_of w es + w v
  unfolding total_of put lookup
  total-put [] q v h = omega arith
  total-put ((k, u) ∷ es) q v h = ground (arith, total-put es q v)

  total-cut :
      (es : List (K × V)) (q : K) {v : V}
      → lookup es q ≡ some v
      → total_of w (cut es q) + w v ≡ total_of w es
  unfolding total_of cut lookup
  total-cut [] q h = absurd (ground arith)
  total-cut ((k, u) ∷ es) q {v} h = ground (arith, total-cut es q {v = v})

  uncut : (es : List (K × V)) (q : K) → lookup es q ≡ none → total_of w (cut es q) ≡ total_of w es
  unfolding total_of cut lookup
  uncut [] q h = refl
  uncut ((k, u) ∷ es) q h = ground (arith, uncut es q)

  pub remove_missing :
      (m : FlatMap K V) (q : K) → get m q ≡ none → total w (remove m q).0 ≡ total w m
  unfolding total
  remove_missing m q h = rw (remove-eq m q) (uncut m.entries q (sym (get-eq m q) ∙ h))

  total-alter :
      (es : List (K × V)) (q : K) (f : V → V) {v : V}
      → lookup es q ≡ some v
      → total_of w (alter es q f) + w v ≡ total_of w es + w (f v)
  unfolding total_of alter lookup
  total-alter [] q f h = absurd (ground arith)
  total-alter ((k, u) ∷ es) q f {v} h = ground (arith, total-alter es q f {v = v})

  pub total-insert :
      (m : FlatMap K V) (q : K) (v : V)
      → get m q ≡ none
      → total w (insert m q v).0 ≡ total w m + w v
  unfolding total
  total-insert m q v h = rw (insert-eq m q v) (total-put m.entries q v (sym (get-eq m q) ∙ h))

  pub total-remove :
      (m : FlatMap K V) (q : K) {v : V}
      → get m q ≡ some v
      → total w (remove m q).0 + w v ≡ total w m
  unfolding total
  total-remove m q h = rw (remove-eq m q) (total-cut m.entries q (sym (get-eq m q) ∙ h))

  pub total-modify :
      (m : FlatMap K V) (q : K) (f : V → V) {v : V}
      → get m q ≡ some v
      → total w (modify m q f) + w v ≡ total w m + w (f v)
  unfolding total
  total-modify m q f h = rw (modify-eq m q f) (total-alter m.entries q f (sym (get-eq m q) ∙ h))

module _ {ℓ κ μ} {K : Type ℓ} {V : Type κ} {X : Type μ} (select : K → V → Option X) where
  -- The selected entries weigh what the rest lacks.
  unfoldable pub selected_weight : (V → ℕ) → List (K × V) → ℕ
  selected_weight w [] = 0
  selected_weight w ((k, v) ∷ es) =
      let rest = selected_weight w es in elim (select k v) [ none ↦ rest | some x ↦ w v + rest ]

  pub total-unselected :
      (w : V → ℕ) (es : List (K × V))
      → total_of w (unselected select es) + selected_weight w es ≡ total_of w es
  unfolding total_of unselected selected_weight
  total-unselected w [] = omega arith
  total-unselected w ((k, v) ∷ es) = ground (arith, total-unselected w es)

  unselected-eq :
      (es : List (K × V)) → unselected select es ≡ retain_mut (λ k v. (v, is_none (select k v))) es
  unfolding unselected retain_mut
  unselected-eq [] = refl
  unselected-eq ((k, v) ∷ es) = ground (arith, unselected-eq es)

  module _ ⦃o : Ord K⦄ where
    pub unselected-IsSorted : (m : FlatMap K V) → IsSorted m → Sorted (unselected select m.entries)
    unfolding retain
    unselected-IsSorted m s =
        rw (unselected-eq m.entries) (retain-IsSorted (λ k v. (v, is_none (select k v))) m s)

    -- An entry stays exactly if it is not selected.
    pub get-unselected :
        (m : FlatMap K V) (k : K)
        → IsSorted m
        → get (record { entries = unselected select m.entries }) k
          ≡ Option.bind (get m k) (λ v. if is_none (select k v) then some v else none)
    unfolding retain Option.bind
    get-unselected m k s =
        rw (unselected-eq m.entries)
          (get-retain (λ k v. (v, is_none (select k v))) m k s ∙ by_value (get m k))
      where
        by_value :
            (g : Option V)
            → Option.bind g (λ v. kept (v, is_none (select k v)))
              ≡ Option.bind g (λ v. if is_none (select k v) then some v else none)
        by_value none = refl
        by_value (some v) = ground arith

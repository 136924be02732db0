-- ===== src/FlatMap/Sizes.antt =====
-- How many entries the operations leave.
use ziggurat.Base.{
  ℕ, zero, suc, ◌-◌, ◌≡◌, ◌≤◌, refl, Option, none, List, [], ◌∷◌, Result, ok, err, length,
  insert_at, remove_at, get_elem?, if◌then◌else◌, arith, Option-cases, inl, inr,
}
use ziggurat.Base.Order.{Ord}
use mathlib.Core.Option
use ziggurat.FlatMap.Sorted.{contains_key-eq, get-eq}
use ziggurat.FlatMap.{
  FlatMap, new, len, remove, modify_at, insert, modify, or_insert, pop_first, contains_key,
  index_of, get,
}

module _ {ℓ κ} {K : Type ℓ} {V : Type κ} where
  length-modify_at : (f : V → V) (es : List (K × V)) (i : ℕ) → length (modify_at f es i) ≡ length es
  unfolding modify_at
  length-modify_at f [] i = refl
  length-modify_at f ((k, v) ∷ es) zero = refl
  length-modify_at f ((k, v) ∷ es) (suc i) = ground (arith, length-modify_at f es i)

  pub len-pop_first : (m : FlatMap K V) → len (pop_first m).0 ≡ len m - 1
  unfolding len pop_first
  len-pop_first m = ground arith

  length-insert_at :
      (es : List (K × V)) (i : ℕ) (e : K × V) → length (insert_at es i e) ≤ suc (length es)
  length-insert_at [] zero e = omega arith
  length-insert_at [] (suc i) e = omega arith
  length-insert_at (x ∷ es) zero e = omega arith
  length-insert_at (x ∷ es) (suc i) e = ground (arith, length-insert_at es i e)

module _ {ℓ κ} {K : Type ℓ} {V : Type κ} ⦃o : Ord K⦄ where
  pub len-modify : (m : FlatMap K V) (q : K) (f : V → V) → len (modify m q f) ≡ len m
  unfolding len modify
  len-modify m q f = by_index (index_of m q)
    where
      by_index :
          (r : Result ℕ ℕ)
          → length
              (elim r as (λ _. FlatMap K V) [
                | ok i ↦ record { entries = modify_at f m.entries i }
                | err i ↦ m
              ]).entries
            ≡ length m.entries
      by_index (ok i) = length-modify_at f m.entries i
      by_index (err i) = refl

  len-insert-le : (m : FlatMap K V) (q : K) (w : V) → len (insert m q w).0 ≤ suc (len m)
  unfolding len insert
  len-insert-le m q w = by_index (index_of m q)
    where
      by_index :
          (r : Result ℕ ℕ)
          → length
              (elim r as (λ _. FlatMap K V × Option V) [
                | ok i ↦ (
                  record { entries = modify_at (λ _. w) m.entries i },
                  Option.map (λ e. e.1) (get_elem? m.entries i),
                )
                | err i ↦ (record { entries = insert_at m.entries i (q, w) }, none)
              ]).0.entries
            ≤ suc (length m.entries)
      by_index (ok i) = omega (arith, length-modify_at (λ _. w) m.entries i)
      by_index (err i) = length-insert_at m.entries i (q, w)

  -- Only a missing key takes room.
  pub len-or_insert :
      (m : FlatMap K V) (q : K) (d : V)
      → len (or_insert m q d).0 ≤ (if contains_key m q then len m else suc (len m))
  unfolding or_insert
  len-or_insert m q d = elim (Option-cases (get m q)) [
    | inl missing ↦ ground (arith, missing, len-insert-le m q d, contains_key-eq m q, get-eq m q)
    | inr (v, present) ↦ ground (arith, present, contains_key-eq m q, get-eq m q)
  ]

  length-remove_at : (es : List (K × V)) (i : ℕ) → length (remove_at es i) ≤ length es
  length-remove_at [] zero = omega arith
  length-remove_at [] (suc i) = omega arith
  length-remove_at (x ∷ es) zero = omega arith
  length-remove_at (x ∷ es) (suc i) = ground (arith, length-remove_at es i)

  pub len-remove-le : (m : FlatMap K V) (q : K) → len (remove m q).0 ≤ len m
  unfolding len remove
  len-remove-le m q = by_index (index_of m q)
    where
      by_index :
          (r : Result ℕ ℕ)
          → length
              (elim r as (λ _. FlatMap K V × Option V) [
                | ok i ↦ (
                  record { entries = remove_at m.entries i },
                  Option.map (λ e. e.1) (get_elem? m.entries i),
                )
                | err i ↦ (m, none)
              ]).0.entries
            ≤ length m.entries
      by_index (ok i) = length-remove_at m.entries i
      by_index (err i) = omega arith

module _ {ℓ κ} (K : Type ℓ) (V : Type κ) where
  pub len-new : len (new {K = K} {V = V}) ≡ 0
  unfolding len new
  len-new = refl

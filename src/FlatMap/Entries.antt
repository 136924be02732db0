-- ===== src/FlatMap/Entries.antt =====
-- The vector of a sorted map against `get`: what a scan of the entries finds.
use ziggurat.Base.{
  any-find, any-map, find-some, any-false, ◌≡◌, Bool, true, false, some, List, [], ◌∷◌, Ordering,
  arith, All, any, find, map, inl, inr, Bool-cases, ◌⊎◌, subst, sym, ◌∙◌,
}
use ziggurat.Base.Order.{Ord}
use mathlib.Core.Option.{some-injective}
use ziggurat.FlatMap.{FlatMap, get, values}
use ziggurat.FlatMap.Sorted.{Sorted, IsSorted, lookup, get-eq}

module _ {ℓ κ} {K : Type ℓ} {V : Type κ} ⦃o : Ord K⦄ where
  lookup-head : (k : K) (v : V) (es : List (K × V)) → lookup ((k, v) ∷ es) k ≡ some v
  unfolding lookup
  lookup-head k v es = ground (arith, o.cmp_refl k)

  -- An entry behind the first one is found past it.
  lookup-tail :
      (e : K × V) (es : List (K × V)) (k : K)
      → o.cmp e.0 k ≡ Ordering.lt
      → lookup (e ∷ es) k ≡ lookup es k
  unfolding lookup
  lookup-tail e es k h = ground arith

  lookup_cases :
      (j : K) (w : V) (es : List (K × V)) (k : K) (v : V)
      → lookup ((j, w) ∷ es) k ≡ some v
      → (lookup es k ≡ some v) ⊎ (Path (K × V) (j, w) (k, v))
  unfolding lookup
  lookup_cases j w es k v e = ground (arith, o.eq_of_cmp j k)

  -- What holds of all entries holds of what `get` returns, and the other way round.
  All-lookup {μ} :
      (P : K × V → Type μ) (es : List (K × V)) (k : K) (v : V)
      → All P es
      → lookup es k ≡ some v
      → P (k, v)
  unfolding lookup
  All-lookup P [] k v a e = absurd (ground arith)
  All-lookup P ((j, w) ∷ es) k v a e = elim (lookup_cases j w es k v e) [
    | inl behind ↦ All-lookup P es k v a.1 behind
    | inr same ↦ subst P same a.0
  ]

  lookup-All {μ} :
      (P : K × V → Type μ) (es : List (K × V))
      → Sorted es
      → ((k : K) (v : V) → lookup es k ≡ some v → P (k, v))
      → All P es
  lookup-All P [] s h = tt
  lookup-All P ((j, w) ∷ es) s h = (
    h j w (lookup-head j w es),
    lookup-All P es s.1 (λ k v e.
        h k v
          (lookup-tail (j, w) es k (All-lookup (λ x. o.cmp j x.0 ≡ Ordering.lt) es k v s.0 e) ∙ e)),
  )

  pub get-All {μ} :
      (P : K × V → Type μ) (m : FlatMap K V)
      → IsSorted m
      → ((k : K) (v : V) → get m k ≡ some v → P (k, v))
      → All P m.entries
  get-All P m s h = lookup-All P m.entries s (λ k v e. h k v (get-eq m k ∙ e))

  pub All-get {μ} :
      (P : K × V → Type μ) (m : FlatMap K V) (k : K) (v : V)
      → All P m.entries
      → get m k ≡ some v
      → P (k, v)
  All-get P m k v a e = All-lookup P m.entries k v a (sym (get-eq m k) ∙ e)

  found :
      (p : K × V → Bool) (es : List (K × V)) {k : K} {v : V}
      → Sorted es
      → find p es ≡ some (k, v)
      → lookup es k ≡ some v
  found p [] s e = absurd (ground arith)
  found p ((j, w) ∷ es) {k} {v} s e = elim (Bool-cases (p (j, w))) [
    | inl t ↦
        let same : Path (K × V) (j, w) (k, v) = some-injective _ _ (rw t at e) in
        subst (λ x. lookup ((j, w) ∷ es) x.0 ≡ some x.1) same (lookup-head j w es)
    | inr f ↦
        let rest : find p es ≡ some (k, v) = rw f at e in
        lookup-tail (j, w) es k
          (All-lookup (λ x. o.cmp j x.0 ≡ Ordering.lt) es k v s.0 (found p es s.1 rest))
        ∙ found p es s.1 rest
  ]

  -- What a scan of the entries finds, `get` returns.
  pub get_found :
      (p : K × V → Bool) (m : FlatMap K V) {k : K} {v : V}
      → IsSorted m
      → find p m.entries ≡ some (k, v)
      → get m k ≡ some v
  get_found p m {k} s e = get-eq m k ∙ found p m.entries s e

  All-entries {μ} :
      (P : V → Type μ) (es : List (K × V)) → All P (map (λ e. e.1) es) → All (λ e. P e.1) es
  All-entries P [] a = tt
  All-entries P (e ∷ es) a = (a.0, All-entries P es a.1)

  pub All-values {μ} :
      (P : V → Type μ) (m : FlatMap K V) (k : K) (v : V) → All P (values m) → get m k ≡ some v → P v
  unfolding values
  All-values P m k v a e = All-get (λ x. P x.1) m k v (All-entries P m.entries a) e

  pub values-All {μ} :
      (P : V → Type μ) (m : FlatMap K V)
      → IsSorted m
      → ((k : K) (v : V) → get m k ≡ some v → P v)
      → All P (values m)
  unfolding values
  values-All P m s h = back m.entries (get-All (λ x. P x.1) m s h)
    where
      back : (es : List (K × V)) → All (λ e. P e.1) es → All P (map (λ e. e.1) es)
      back [] a = tt
      back (e ∷ es) a = (a.0, back es a.1)

  -- A scan of the values that succeeds has a key, and a value that passes makes it succeed.
  pub any-values :
      (p : V → Bool) (m : FlatMap K V)
      → IsSorted m
      → any p (values m) ≡ true
      → (k : K) × (v : V) × (get m k ≡ some v) × (p v ≡ true)
  unfolding values
  any-values p m s h =
      let ((k, v), f) =
        any-find (λ e. p e.1) m.entries (sym (any-map (λ e. e.1) p m.entries) ∙ h) in
      (k, v, get_found (λ e. p e.1) m s f, find-some (λ e. p e.1) m.entries f)

  pub any_of_get :
      (p : V → Bool) (m : FlatMap K V) (k : K) (v : V)
      → get m k ≡ some v
      → p v ≡ true
      → any p (values m) ≡ true
  any_of_get p m k v g h = elim (Bool-cases (any p (values m))) [
    | inl t ↦ t
    | inr f ↦
        absurd (ground (arith, All-values (λ w. p w ≡ false) m k v (any-false p (values m) f) g))
  ]

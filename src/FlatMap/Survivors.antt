-- ===== src/FlatMap/Survivors.antt =====
-- What the loop of `Drain` leaves behind, whatever it does with what it removes.
use mathlib.Core.Option
use mathlib.Core.Option.{some-injective, some-ne-none}
use ziggurat.Base.{
  ◌≡◌, sym, ap, ◌∙◌, subst, true, false, Option, none, some, List, [], ◌∷◌, arith, All,
  Option-cases, inl, inr,
}
use ziggurat.Base.Order.{Ord, key_eq}
use ziggurat.FlatMap.{FlatMap, get, remove, update_values}
use ziggurat.FlatMap.Sorted.{IsSorted}
use ziggurat.FlatMap.StaysSorted.{remove-IsSorted, update_values-IsSorted}
use ziggurat.FlatMap.Laws.{get-remove, get-update_values}
use ziggurat.FlatMap.Entries.{All-get}
use ziggurat.FlatMap.Everywhere.{key_eq_self}
use ziggurat.FlatMap.Drain.{collect, drain}

-- The key is none of those collected.
module _ {ℓ μ} {K : Type ℓ} {X : Type μ} ⦃o : Ord K⦄ where
  abbrev Missed : K → List (K × X) → Type 0
  Missed k = All (λ e. key_eq e.0 k ≡ false)

module _ {ℓ κ μ} {K : Type ℓ} {V : Type κ} {X : Type μ} ⦃o : Ord K⦄
    (select : K → V → Option X) where
  passed_over :
      (k : K) (es : List (K × V))
      → Missed k (collect select es)
      → All (λ e. key_eq e.0 k ≡ true → select e.0 e.1 ≡ none) es
  unfolding collect
  passed_over k [] a = tt
  passed_over k ((j, v) ∷ es) a = elim (Option-cases (select j v)) [
    | inl e ↦ (λ h. e, passed_over k es (rw (e, collect) at a))
    | inr (x, e) ↦
        let b = rw (e, collect) at a in (λ h. absurd (ground (arith, h, b.0)), passed_over k es b.1)
  ]

module _ {ℓ κ μ ν} {K : Type ℓ} {V : Type κ} {X : Type μ} {A : Type ν} ⦃o : Ord K⦄
    (f : K → V → X → Option (List A)) where
  drained_step :
      (m : FlatMap K V) (j k : K) (v : V)
      → IsSorted m
      → get (remove m j).0 k ≡ some v
      → (key_eq j k ≡ false) × (get m k ≡ some v)
  drained_step m j k v s e = ground (arith, get-remove m j k s, e)

  ran :
      (j : K) (x : X) (ks : List (K × X)) (m n : FlatMap K V) (a : List A)
      → drain f ((j, x) ∷ ks) m ≡ some (n, a)
      → (b : List A) × (drain f ks (remove m j).0 ≡ some (n, b))
  unfolding drain
  ran j x ks m n a e = elim (Option-cases (remove m j).1) [
    | inl gone ↦ absurd (some-ne-none (n, a) (sym (rw (gone, drain) at e)))
    | inr (v, found) ↦ elim (Option-cases (f j v x)) [
      | inl panic ↦ absurd (some-ne-none (n, a) (sym (rw (found, drain, panic, drain) at e)))
      | inr (c, given) ↦ elim (Option-cases (drain f ks (remove m j).0)) [
        | inl panic ↦
            absurd (some-ne-none (n, a) (sym (rw (found, drain, given, drain, panic) at e)))
        | inr ((p, b), rest) ↦
            let both = some-injective _ _ (rw (found, drain, given, drain, rest) at e) in
            (b, rest ∙ ap (λ y. some (y, b)) (ap (λ y. y.0) both))
      ]
    ]
  ]

  drained_old :
      (ks : List (K × X)) (m n : FlatMap K V) (a : List A) (k : K) (v : V)
      → IsSorted m
      → drain f ks m ≡ some (n, a)
      → get n k ≡ some v
      → Missed k ks × (get m k ≡ some v)
  unfolding drain
  drained_old [] m n a k v s e g =
      (tt, subst (λ y. get y k ≡ some v) (sym (ap (λ y. y.0) (some-injective _ _ e))) g)
  drained_old ((j, x) ∷ ks) m n a k v s e g =
      let (b, rest) = ran j x ks m n a e in
      let (missed, old) = drained_old ks (remove m j).0 n b k v (remove-IsSorted m j s) rest g in
      let (other, older) = drained_step m j k v s old in ((other, missed), older)

module _ {ℓ κ μ ν} {K : Type ℓ} {V : Type κ} {X : Type μ} {A : Type ν} ⦃o : Ord K⦄
    (select : K → V → Option X) (f : K → V → X → Option (List A)) (h : V → V) where
  -- A record that is left was not selected, and is the changed one.
  pub survivor :
      (m n : FlatMap K V) (a : List A) (k : K) (u : V)
      → IsSorted m
      → drain f (collect select m.entries) (update_values h m) ≡ some (n, a)
      → get n k ≡ some u
      → (v : V) × (get m k ≡ some v) × (select k v ≡ none) × (u ≡ h v)
  survivor m n a k u s e g =
      let (missed, old) =
        drained_old f (collect select m.entries) (update_values h m) n a k u
          (update_values-IsSorted h m s) e g in
      elim (Option-cases (get m k)) [
        | inl gone ↦
            absurd (some-ne-none u (sym old ∙ get-update_values h m k ∙ ap (Option.map h) gone))
        | inr (v, found) ↦ (
          v,
          found,
          All-get (λ x. key_eq x.0 k ≡ true → select x.0 x.1 ≡ none) m k v
              (passed_over select k m.entries missed) found (key_eq_self k),
          some-injective u (h v) (sym old ∙ get-update_values h m k ∙ ap (Option.map h) found),
        )
      ]

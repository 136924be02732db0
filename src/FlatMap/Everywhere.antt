-- ===== src/FlatMap/Everywhere.antt =====
-- A predicate on the entries of a map, and what keeps it.
use mathlib.Core.Option
use ziggurat.Base.{
  ◌≡◌, refl, sym, ◌∙◌, subst, true, some, arith, Bool-cases, Option-cases, inl, inr,
}
use ziggurat.Base.Order.{Ord, key_eq}
use ziggurat.FlatMap.{FlatMap, new, get, modify, insert, remove, or_insert, update_values}
use ziggurat.FlatMap.Sorted.{IsSorted}
use ziggurat.FlatMap.Laws.{get-insert, get-modify, get-remove, get-update_values, get-new}
use mathlib.Core.Option.{some-injective, some-ne-none}

module _ {ℓ} {K : Type ℓ} ⦃o : Ord K⦄ where
  pub key_eq_self : (k : K) → key_eq k k ≡ true
  key_eq_self k = ground (arith, o.cmp_refl k)

  pub eq_of_key_eq : (j k : K) → key_eq j k ≡ true → j ≡ k
  eq_of_key_eq j k h = o.eq_of_cmp j k (ground arith)

module _ {ℓ κ} {K : Type ℓ} {V : Type κ} ⦃o : Ord K⦄ where
  abbrev pub Everywhere {μ} : (K → V → Type μ) → FlatMap K V → Type (ℓ ⊔ κ ⊔ μ)
  Everywhere P m = (k : K) (v : V) → get m k ≡ some v → P k v

  pub get-insert_self : (m : FlatMap K V) (q : K) (w : V) → get (insert m q w).0 q ≡ some w
  get-insert_self m q w = rw (get-insert m q q w, key_eq_self q) refl

  pub Everywhere-imp {μ ν} :
      {P : K → V → Type μ} {Q : K → V → Type ν} (m : FlatMap K V)
      → ((k : K) (v : V) → P k v → Q k v)
      → Everywhere P m
      → Everywhere Q m
  Everywhere-imp m f h k v g = f k v (h k v g)

  pub Everywhere-insert {μ} :
      (P : K → V → Type μ) (m : FlatMap K V) (q : K) (w : V)
      → Everywhere P m
      → P q w
      → Everywhere P (insert m q w).0
  Everywhere-insert P m q w h p k v g = elim (Bool-cases (key_eq q k)) [
    | inl same ↦
        let e : some w ≡ some v = sym (get-insert m q k w ∙ rw same refl) ∙ g in
        subst (P k) (some-injective w v e) (subst (λ x. P x w) (eq_of_key_eq q k same) p)
    | inr apart ↦ h k v (sym (get-insert m q k w ∙ rw apart refl) ∙ g)
  ]

  pub Everywhere-modify {μ} :
      (P : K → V → Type μ) (m : FlatMap K V) (q : K) (f : V → V)
      → Everywhere P m
      → ((v : V) → get m q ≡ some v → P q (f v))
      → Everywhere P (modify m q f)
  Everywhere-modify P m q f h p k v g = elim (Bool-cases (key_eq q k)) [
    | inl same ↦
        let e = eq_of_key_eq q k same in
        let (u, gu, fu) =
          (Option.map-eq-some_iff f (get m k)).0 (sym (get-modify m q k f ∙ rw same refl) ∙ g) in
        subst (P k) fu (subst (λ x. P x (f u)) e (p u (rw e gu)))
    | inr apart ↦ h k v (sym (get-modify m q k f ∙ rw apart refl) ∙ g)
  ]

  pub Everywhere-update_values {μ} :
      (P : K → V → Type μ) (m : FlatMap K V) (f : V → V)
      → ((k : K) (v : V) → get m k ≡ some v → P k (f v))
      → Everywhere P (update_values f m)
  Everywhere-update_values P m f h k v g =
      let (u, gu, fu) =
        (Option.map-eq-some_iff f (get m k)).0 (sym (get-update_values f m k) ∙ g) in
      subst (P k) fu (h k u gu)

  pub Everywhere-remove {μ} :
      (P : K → V → Type μ) (m : FlatMap K V) (q : K)
      → IsSorted m
      → Everywhere P m
      → Everywhere P (remove m q).0
  Everywhere-remove P m q s h k v g = elim (Bool-cases (key_eq q k)) [
    | inl same ↦ absurd (some-ne-none v (sym (sym (get-remove m q k s ∙ rw same refl) ∙ g)))
    | inr apart ↦ h k v (sym (get-remove m q k s ∙ rw apart refl) ∙ g)
  ]

  pub Everywhere-or_insert {μ} :
      (P : K → V → Type μ) (m : FlatMap K V) (q : K) (d : V)
      → Everywhere P m
      → P q d
      → Everywhere P (or_insert m q d).0
  unfolding or_insert
  Everywhere-or_insert P m q d h p = elim (Option-cases (get m q)) [
    | inl e ↦ rw (e, or_insert) (Everywhere-insert P m q d h p)
    | inr (v, e) ↦ rw (e, or_insert) h
  ]

  -- The value that `or_insert` refers to.
  pub or_insert_value {μ} :
      (P : K → V → Type μ) (m : FlatMap K V) (q : K) (d : V)
      → Everywhere P m
      → P q d
      → P q (or_insert m q d).1
  unfolding or_insert
  or_insert_value P m q d h p = elim (Option-cases (get m q)) [
    | inl e ↦ rw (e, or_insert) p
    | inr (v, e) ↦ rw (e, or_insert) (h q v e)
  ]

-- The empty map has no entry.
module _ {ℓ κ μ} {K : Type ℓ} {V : Type κ} (P : K → V → Type μ) ⦃o : Ord K⦄ where
  pub Everywhere-new : Everywhere P (new {K = K} {V = V})
  Everywhere-new k v g = absurd (some-ne-none v (sym g ∙ get-new k))

-- ===== src/FlatMap/Drain.antt =====
-- The loop that collects the keys of some entries and then removes each of them, against one pass
-- over the vector.
use ziggurat.Base.{
  ◌≡◌, refl, ap, ap₂, ◌∙◌, Option, none, some, List, [], ◌∷◌, ◌++◌, Ordering, All, map,
  Option-cases, inl, inr,
}
use mathlib.Core.List.{append_assoc}
use ziggurat.Base.Order.{Ord}
use ziggurat.FlatMap.{FlatMap, remove, update_values}
use ziggurat.FlatMap.Sorted.{Above, Sorted, lookup, cut, get-eq, remove-eq, remove_old}

module _ {ℓ κ μ} {K : Type ℓ} {V : Type κ} {X : Type μ} (select : K → V → Option X) where
  -- `iter().filter_map(..).collect()`, with the key of each entry.
  unfoldable pub collect : List (K × V) → List (K × X)
  collect [] = []
  collect ((k, v) ∷ es) =
      let rest = collect es in elim (select k v) [ none ↦ rest | some x ↦ (k, x) ∷ rest ]

  -- The entries that are not selected.
  unfoldable pub unselected : List (K × V) → List (K × V)
  unselected [] = []
  unselected ((k, v) ∷ es) =
      let rest = unselected es in elim (select k v) [ none ↦ (k, v) ∷ rest | some x ↦ rest ]

module _ {ℓ κ μ} {K : Type ℓ} {V : Type κ} {X : Type μ} (s t : K → V → Option X) where
  -- Tests that agree on the entries select the same.
  pub collect_same :
      (es : List (K × V)) → All (λ e. s e.0 e.1 ≡ t e.0 e.1) es → collect s es ≡ collect t es
  unfolding collect
  collect_same [] a = refl
  collect_same ((k, v) ∷ es) a = elim (Option-cases (t k v)) [
    | inl e ↦ rw (a.0 ∙ e, e, collect) (collect_same es a.1)
    | inr (x, e) ↦ rw (a.0 ∙ e, e, collect) (ap (λ r. (k, x) ∷ r) (collect_same es a.1))
  ]

module _ {ℓ κ μ ν} {K : Type ℓ} {V : Type κ} {X : Type μ} {A : Type ν} (select : K → V → Option X)
    (g : K → V → X → List A) where
  -- What the selected entries give, in order.
  unfoldable pub emitted : List (K × V) → List A
  emitted [] = []
  emitted ((k, v) ∷ es) =
      let rest = emitted es in elim (select k v) [ none ↦ rest | some x ↦ g k v x ++ rest ]

module _ {ℓ κ} {K : Type ℓ} {V : Type κ} ⦃o : Ord K⦄ where
  All-middle {ρ} :
      (P : K × V → Type ρ) (xs : List (K × V)) (y : K × V) (zs : List (K × V))
      → All P (xs ++ y ∷ zs)
      → P y × All P (xs ++ zs)
  All-middle P [] y zs a = a
  All-middle P (x ∷ xs) y zs a = let (p, q) = All-middle P xs y zs a.1 in (p, (a.0, q))

  Sorted-middle :
      (xs : List (K × V)) (y : K × V) (zs : List (K × V))
      → Sorted (xs ++ y ∷ zs)
      → Sorted (xs ++ zs)
  Sorted-middle [] y zs s = s.1
  Sorted-middle (x ∷ xs) y zs s = ((All-middle _ xs y zs s.0).1, Sorted-middle xs y zs s.1)

  lookup_middle :
      (xs : List (K × V)) (k : K) (v : V) (zs : List (K × V))
      → Sorted (xs ++ (k, v) ∷ zs)
      → lookup (xs ++ (k, v) ∷ zs) k ≡ some v
  unfolding lookup
  lookup_middle [] k v zs s = rw (o.cmp_refl k)
  lookup_middle (x ∷ xs) k v zs s =
      rw ((All-middle (λ e. o.cmp x.0 e.0 ≡ Ordering.lt) xs (k, v) zs s.0).0)
        (lookup_middle xs k v zs s.1)

  cut_middle :
      (xs : List (K × V)) (k : K) (v : V) (zs : List (K × V))
      → Sorted (xs ++ (k, v) ∷ zs)
      → cut (xs ++ (k, v) ∷ zs) k ≡ xs ++ zs
  unfolding cut
  cut_middle [] k v zs s = rw (o.cmp_refl k)
  cut_middle (x ∷ xs) k v zs s =
      rw ((All-middle (λ e. o.cmp x.0 e.0 ≡ Ordering.lt) xs (k, v) zs s.0).0)
        (ap (λ r. x ∷ r) (cut_middle xs k v zs s.1))

module _ {ℓ κ μ ν} {K : Type ℓ} {V : Type κ} {X : Type μ} {A : Type ν} ⦃o : Ord K⦄ where
  -- The keys are removed one by one, and `f` says what each value gives; `none` is a panic, on a
  -- missing key or in `f`.
  unfoldable pub drain :
      (K → V → X → Option (List A)) → List (K × X) → FlatMap K V → Option (FlatMap K V × List A)
  drain f [] m = some (m, [])
  drain f ((k, x) ∷ ks) m = elim (remove m k).1 [
    | none ↦ none
    | some v ↦ elim (f k v x) [
      | none ↦ none
      | some a ↦ elim (drain f ks (remove m k).0) [ none ↦ none | some (m', b) ↦ some (m', a ++ b) ]
    ]
  ]

module _ {ℓ κ η} {K : Type ℓ} {V : Type κ} {U : Type η} ⦃o : Ord K⦄ (h : V → U) where
  changed-Above : (k : K) (es : List (K × V)) → Above k es → Above k (map (λ e. (e.0, h e.1)) es)
  changed-Above k [] a = tt
  changed-Above k (e ∷ es) a = (a.0, changed-Above k es a.1)

  changed-Sorted : (es : List (K × V)) → Sorted es → Sorted (map (λ e. (e.0, h e.1)) es)
  changed-Sorted [] s = tt
  changed-Sorted (e ∷ es) s = (changed-Above e.0 es s.0, changed-Sorted es s.1)

-- The values changed by `h` in between, as in a loop over `iter_mut` that also collects.
module _ {ℓ κ η μ ν} {K : Type ℓ} {V : Type κ} {U : Type η} {X : Type μ} {A : Type ν} ⦃o : Ord K⦄
    (h : V → U) (select : K → V → Option X) (f : K → U → X → Option (List A))
    (g : K → V → X → List A) where
  -- What `f` does with each selected entry is known.
  abbrev pub Gives : List (K × V) → Type (μ ⊔ ν)
  Gives = All (λ e. (x : X) → select e.0 e.1 ≡ some x → f e.0 (h e.1) x ≡ some (g e.0 e.1 x))

  abbrev changed : List (K × V) → List (K × U)
  changed = map (λ e. (e.0, h e.1))

  drain_step :
      (k : K) (v : V) (x : X) (ks : List (K × X)) (m n : FlatMap K U) (b : List A)
      → (remove m k).1 ≡ some (h v)
      → f k (h v) x ≡ some (g k v x)
      → drain f ks (remove m k).0 ≡ some (n, b)
      → drain f ((k, x) ∷ ks) m ≡ some (n, g k v x ++ b)
  unfolding drain
  drain_step k v x ks m n b r e d = rw (r, drain, e, drain, d)

  drain-from :
      (kept : List (K × U)) (es : List (K × V))
      → Sorted (kept ++ changed es)
      → Gives es
      → drain f (collect select es) (record { entries = kept ++ changed es })
        ≡ some (record { entries = kept ++ changed (unselected select es) }, emitted select g es)
  unfolding drain collect unselected emitted
  drain-from kept [] s a = refl
  drain-from kept ((k, v) ∷ es) s a = elim (Option-cases (select k v)) [
    | inl skip ↦
        let more = append_assoc kept ((k, h v) ∷ []) in
        let again = drain-from (kept ++ (k, h v) ∷ []) es (rw (more (changed es)) s) a.1 in
        rw (skip, collect, unselected, emitted)
          (rw (more (changed es), more (changed (unselected select es))) at again)
    | inr (x, take) ↦
        let m : FlatMap K U = record { entries = kept ++ (k, h v) ∷ changed es } in
        let gone : (remove m k).0 ≡ record { entries = kept ++ changed es } =
          ap (λ r. record { entries = r })
            (remove-eq m k ∙ cut_middle kept k (h v) (changed es) s) in
        let again = drain-from kept es (Sorted-middle kept (k, h v) (changed es) s) a.1 in
        rw (take, collect, unselected, emitted)
          (drain_step k v x (collect select es) m _ _
            (remove_old m k ∙ get-eq m k ∙ lookup_middle kept k (h v) (changed es) s) (a.0 x take)
            (rw gone again))
  ]

  -- Where each selected entry gives its items, changing, collecting and removing is one pass.
  pub drain-update :
      (m : FlatMap K V)
      → Sorted m.entries
      → Gives m.entries
      → drain f (collect select m.entries) (record { entries = changed m.entries })
        ≡ some
            (record { entries = changed (unselected select m.entries) }, emitted select g m.entries)
  drain-update m s a = drain-from [] m.entries (changed-Sorted h m.entries s) a

module _ {ℓ κ} {K : Type ℓ} {V : Type κ} where
  unchanged : (es : List (K × V)) → map (λ e. (e.0, e.1)) es ≡ es
  unchanged [] = refl
  unchanged (e ∷ es) = ap (λ r. e ∷ r) (unchanged es)

  pub update_values_self : (m : FlatMap K V) → update_values (λ v. v) m ≡ m
  unfolding update_values
  update_values_self m = ap (λ r. record { entries = r }) (unchanged m.entries)

module _ {ℓ κ μ ν} {K : Type ℓ} {V : Type κ} {X : Type μ} {A : Type ν} ⦃o : Ord K⦄
    (select : K → V → Option X) (f : K → V → X → Option (List A)) (g : K → V → X → List A) where
  pub drain-collect :
      (m : FlatMap K V)
      → Sorted m.entries
      → Gives (λ v. v) select f g m.entries
      → drain f (collect select m.entries) m
        ≡ some (record { entries = unselected select m.entries }, emitted select g m.entries)
  drain-collect m s a =
      rw (unchanged m.entries, unchanged (unselected select m.entries)) at
        (drain-update (λ v. v) select f g m s a)

module _ {ℓ κ μ} {K : Type ℓ} {V : Type κ} {X : Type μ} (select : K → V → Option X) where
  idle_entries :
      (h : V → V) (es : List (K × V))
      → All (λ e. (select e.0 e.1 ≡ none) × (h e.1 ≡ e.1)) es
      → (collect select es ≡ []) × (map (λ e. (e.0, h e.1)) es ≡ es)
  unfolding collect
  idle_entries h [] a = (refl, refl)
  idle_entries h ((k, v) ∷ es) a =
      let (c, u) = idle_entries h es a.1 in (rw (a.0.0, collect) c, ap₂ (λ x r. (k, x) ∷ r) a.0.1 u)

module _ {ℓ κ μ ν} {K : Type ℓ} {V : Type κ} {X : Type μ} {A : Type ν} ⦃o : Ord K⦄
    (select : K → V → Option X) (f : K → V → X → Option (List A)) where
  -- A sweep that changes no record and selects none does nothing.
  pub drain-idle :
      (h : V → V) (m : FlatMap K V)
      → All (λ e. (select e.0 e.1 ≡ none) × (h e.1 ≡ e.1)) m.entries
      → drain f (collect select m.entries) (update_values h m) ≡ some (m, [])
  unfolding update_values drain
  drain-idle h m a =
      let (c, u) = idle_entries select h m.entries a in
      rw c (ap (λ r. some (record { entries = r }, [])) u)

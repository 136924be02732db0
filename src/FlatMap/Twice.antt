-- ===== src/FlatMap/Twice.antt =====
-- Two writes at one key.
use ziggurat.Base.{◌≡◌, refl, sym, ◌∙◌, ap, List, [], ◌∷◌, arith}
use ziggurat.Base.Order.{Ord}
use ziggurat.FlatMap.{FlatMap, modify, remove}
use ziggurat.FlatMap.Sorted.{cut, alter, remove-eq, modify-eq}

module _ {ℓ κ} {K : Type ℓ} {V : Type κ} ⦃o : Ord K⦄ where
  alter-alter :
      (es : List (K × V)) (q : K) (f g : V → V)
      → alter (alter es q f) q g ≡ alter es q (λ v. g (f v))
  unfolding alter
  alter-alter [] q f g = refl
  alter-alter ((k, v) ∷ es) q f g = ground (arith, alter-alter es q f g)

  cut-alter : (es : List (K × V)) (q : K) (f : V → V) → cut (alter es q f) q ≡ cut es q
  unfolding cut alter
  cut-alter [] q f = refl
  cut-alter ((k, v) ∷ es) q f = ground (arith, cut-alter es q f)

  by_entries : (m n : FlatMap K V) → m.entries ≡ n.entries → m ≡ n
  by_entries m n e = ap (λ r. record { entries = r }) e

  pub modify-modify :
      (m : FlatMap K V) (q : K) (f g : V → V)
      → modify (modify m q f) q g ≡ modify m q (λ v. g (f v))
  modify-modify m q f g = by_entries _ _ (
      modify-eq (modify m q f) q g
      ∙ ap (λ es. alter es q g) (modify-eq m q f)
      ∙ alter-alter m.entries q f g
      ∙ sym (modify-eq m q (λ v. g (f v))))

  pub remove-modify :
      (m : FlatMap K V) (q : K) (f : V → V) → (remove (modify m q f) q).0 ≡ (remove m q).0
  remove-modify m q f = by_entries _ _ (
      remove-eq (modify m q f) q
      ∙ ap (λ es. cut es q) (modify-eq m q f)
      ∙ cut-alter m.entries q f
      ∙ sym (remove-eq m q))

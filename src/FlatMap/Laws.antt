-- ===== src/FlatMap/Laws.antt =====
-- A sorted vector as a finite map: what each operation does to `get`.
use ziggurat.Base.{
  ◌≡◌, refl, Bool, true, false, Option, none, some, List, [], ◌∷◌, if◌then◌else◌, map, Ordering,
  arith,
}
use ziggurat.Base.Order.{gt_of_lt, lt_of_gt, Ord, key_eq}
use ziggurat.FlatMap.{
  FlatMap, new, get, modify, insert, remove, or_insert, retain, retain_mut, update_values,
}
use ziggurat.FlatMap.Sorted.{
  Above, Sorted, IsSorted, lookup, put, cut, alter, get-eq, insert-eq, remove-eq, modify-eq,
}
use mathlib.Core.Option

-- What `retain` leaves of a value that was there.
abbrev pub kept {κ} : {V : Type κ} → V × Bool → Option V
kept (w, true) = some w
kept (w, false) = none

module _ {ℓ κ} {K : Type ℓ} {V : Type κ} ⦃o : Ord K⦄ where
  -- A function, changed at one key.
  abbrev pub update : (K → Option V) → K → Option V → K → Option V
  update f q w p = if key_eq q p then w else f p

  lookup-Above : (es : List (K × V)) (q : K) → Above q es → lookup es q ≡ none
  unfolding lookup
  lookup-Above [] q a = refl
  lookup-Above ((k, v) ∷ es) q a = ground (arith, gt_of_lt q k)

  lookup_beyond :
      (es : List (K × V)) (k q : K) → o.cmp q k ≡ Ordering.lt → Above k es → lookup es q ≡ none
  unfolding lookup
  lookup_beyond [] k q h a = refl
  lookup_beyond ((j, v) ∷ es) k q h a = ground (arith, o.lt_trans q k j h a.0, gt_of_lt q j)

  lookup-put :
      (es : List (K × V)) (q p : K) (w : V)
      → lookup (put es q w) p ≡ (if key_eq q p then some w else lookup es p)
  unfolding lookup put
  lookup-put [] q p w = ground arith
  lookup-put ((k, v) ∷ es) q p w = ground (
    arith,
    lookup-put es q p w,
    o.eq_of_cmp k q,
    o.eq_of_cmp q p,
    o.eq_of_cmp k p,
    lt_of_gt k q,
    gt_of_lt p q,
    lt_of_gt q p,
    gt_of_lt p k,
    o.lt_trans p q k,
    o.cmp_refl k,
  )

  lookup-cut :
      (es : List (K × V)) (q p : K)
      → Sorted es
      → lookup (cut es q) p ≡ (if key_eq q p then none else lookup es p)
  unfolding lookup cut
  lookup-cut [] q p s = ground arith
  lookup-cut ((k, v) ∷ es) q p s = ground (
    arith,
    lookup-cut es q p s.1,
    o.eq_of_cmp k q,
    o.eq_of_cmp q p,
    lt_of_gt k q,
    lt_of_gt k p,
    gt_of_lt p q,
    o.lt_trans p k q,
    lookup_beyond es k p,
    lookup-Above es p,
    gt_of_lt p k,
    o.lt_trans q k p,
    gt_of_lt q p,
    o.cmp_refl q,
  )

  lookup-alter :
      (es : List (K × V)) (q p : K) (f : V → V)
      → lookup (alter es q f) p ≡ (if key_eq q p then Option.map f (lookup es p) else lookup es p)
  unfolding lookup alter
  lookup-alter [] q p f = ground arith
  lookup-alter ((k, v) ∷ es) q p f =
      ground (arith, lookup-alter es q p f, o.eq_of_cmp k q, o.eq_of_cmp q p, o.cmp_refl q)

  lookup-retain_mut :
      (f : K → V → V × Bool) (es : List (K × V)) (p : K)
      → Sorted es
      → lookup (retain_mut f es) p ≡ Option.bind (lookup es p) (λ v. kept (f p v))
  unfolding lookup retain_mut Option.bind
  lookup-retain_mut f [] p s = refl
  lookup-retain_mut f ((k, v) ∷ es) p s = ground (
    arith,
    lookup-retain_mut f es p s.1,
    o.eq_of_cmp k p,
    lookup-Above es p,
    lookup_beyond es k p,
    lt_of_gt k p,
  )

  lookup-update_values :
      (f : V → V) (es : List (K × V)) (p : K)
      → lookup (map (λ e. (e.0, f e.1)) es) p ≡ Option.map f (lookup es p)
  unfolding lookup
  lookup-update_values f [] p = refl
  lookup-update_values f ((k, v) ∷ es) p = ground (arith, lookup-update_values f es p)

  -- The empty map reads as nowhere defined.
  pub get-new : (q : K) → get {V = V} new q ≡ none
  unfolding new lookup
  get-new q = get-eq new q

  -- After an insertion the inserted key reads as the new value, and every other key as before.
  pub get-insert :
      (m : FlatMap K V) (q p : K) (w : V)
      → get (insert m q w).0 p ≡ (if key_eq q p then some w else get m p)
  get-insert m q p w =
      rw (get-eq (insert m q w).0 p, insert-eq m q w, get-eq m p) (lookup-put m.entries q p w)

  -- After a removal from a sorted map the removed key is missing, and every other key reads as
  -- before.
  pub get-remove :
      (m : FlatMap K V) (q p : K)
      → IsSorted m
      → get (remove m q).0 p ≡ (if key_eq q p then none else get m p)
  get-remove m q p s =
      rw (get-eq (remove m q).0 p, remove-eq m q, get-eq m p) (lookup-cut m.entries q p s)

  pub get-modify :
      (m : FlatMap K V) (q p : K) (f : V → V)
      → get (modify m q f) p ≡ (if key_eq q p then Option.map f (get m p) else get m p)
  get-modify m q p f =
      rw (get-eq (modify m q f) p, modify-eq m q f, get-eq m p) (lookup-alter m.entries q p f)

  pub get-retain :
      (f : K → V → V × Bool) (m : FlatMap K V) (p : K)
      → IsSorted m
      → get (retain f m) p ≡ Option.bind (get m p) (λ v. kept (f p v))
  unfolding retain
  get-retain f m p s =
      rw (get-eq (record { entries = retain_mut f m.entries }) p, get-eq m p)
        (lookup-retain_mut f m.entries p s)

  pub get-update_values :
      (f : V → V) (m : FlatMap K V) (p : K) → get (update_values f m) p ≡ Option.map f (get m p)
  unfolding update_values
  get-update_values f m p =
      rw (get-eq (record { entries = map (λ e. (e.0, f e.1)) m.entries }) p, get-eq m p)
        (lookup-update_values f m.entries p)

  pub get-or_insert :
      (m : FlatMap K V) (q p : K) (d : V)
      → get (or_insert m q d).0 p ≡ (if key_eq q p then some (or_insert m q d).1 else get m p)
  unfolding or_insert
  get-or_insert m q p d = ground (arith, get-insert m q p d, o.eq_of_cmp q p)

  -- `or_insert` writes only where the key is missing.
  pub or_insert_missing :
      (m : FlatMap K V) (q : K) (d : V) → get m q ≡ none → or_insert m q d ≡ ((insert m q d).0, d)
  unfolding or_insert
  or_insert_missing m q d e = rw (e, or_insert)

  pub or_insert_present :
      (m : FlatMap K V) (q : K) (d : V) {v : V} → get m q ≡ some v → or_insert m q d ≡ (m, v)
  unfolding or_insert
  or_insert_present m q d e = rw (e, or_insert)

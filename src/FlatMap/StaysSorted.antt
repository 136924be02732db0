-- ===== src/FlatMap/StaysSorted.antt =====
-- The operations of flat_map.rs and the order of the vector.
use ziggurat.Base.{◌≡◌, Bool, List, [], ◌∷◌, map, Ordering, arith, All-map}
use ziggurat.Base.Order.{lt_of_gt, Ord}
use ziggurat.FlatMap.{
  FlatMap, new, modify, insert, remove, or_insert, retain, retain_mut, update_values, pop_first,
}
use ziggurat.FlatMap.Sorted.{
  Above, Sorted, IsSorted, put, cut, alter, insert-eq, remove-eq, modify-eq,
}

module _ {ℓ κ} {K : Type ℓ} {V : Type κ} ⦃o : Ord K⦄ where
  -- Keys that lie above a bound stay above it, whatever an operation on another key does.
  Above-trans : (j k : K) (es : List (K × V)) → o.cmp j k ≡ Ordering.lt → Above k es → Above j es
  Above-trans j k es h a = All-map (λ e. o.lt_trans j k e.0 h) es a

  put-Above :
      (b : K) (es : List (K × V)) (q : K) (w : V)
      → o.cmp b q ≡ Ordering.lt
      → Above b es
      → Above b (put es q w)
  unfolding put
  put-Above b [] q w h a = (h, tt)
  put-Above b ((k, v) ∷ es) q w h a = ground (arith, put-Above b es q w h a.1)

  cut-Above : (b : K) (es : List (K × V)) (q : K) → Above b es → Above b (cut es q)
  unfolding cut
  cut-Above b [] q a = tt
  cut-Above b ((k, v) ∷ es) q a = ground (arith, cut-Above b es q a.1)

  alter-Above :
      (b : K) (es : List (K × V)) (q : K) (f : V → V) → Above b es → Above b (alter es q f)
  unfolding alter
  alter-Above b [] q f a = tt
  alter-Above b ((k, v) ∷ es) q f a = ground (arith, alter-Above b es q f a.1)

  retain_mut-Above :
      (b : K) (f : K → V → V × Bool) (es : List (K × V)) → Above b es → Above b (retain_mut f es)
  unfolding retain_mut
  retain_mut-Above b f [] a = tt
  retain_mut-Above b f ((k, v) ∷ es) a = ground (arith, retain_mut-Above b f es a.1)

  update-Above :
      (b : K) (f : V → V) (es : List (K × V)) → Above b es → Above b (map (λ e. (e.0, f e.1)) es)
  update-Above b f [] a = tt
  update-Above b f (e ∷ es) a = (a.0, update-Above b f es a.1)

  put-Sorted : (es : List (K × V)) (q : K) (w : V) → Sorted es → Sorted (put es q w)
  unfolding put
  put-Sorted [] q w s = (tt, tt)
  put-Sorted ((k, v) ∷ es) q w s =
      ground (arith, put-Sorted es q w s.1, put-Above k es q w, lt_of_gt k q, Above-trans q k es)

  cut-Sorted : (es : List (K × V)) (q : K) → Sorted es → Sorted (cut es q)
  unfolding cut
  cut-Sorted [] q s = tt
  cut-Sorted ((k, v) ∷ es) q s = ground (arith, cut-Sorted es q s.1, cut-Above k es q s.0)

  alter-Sorted : (es : List (K × V)) (q : K) (f : V → V) → Sorted es → Sorted (alter es q f)
  unfolding alter
  alter-Sorted [] q f s = tt
  alter-Sorted ((k, v) ∷ es) q f s =
      ground (arith, alter-Sorted es q f s.1, alter-Above k es q f s.0)

  retain_mut-Sorted :
      (f : K → V → V × Bool) (es : List (K × V)) → Sorted es → Sorted (retain_mut f es)
  unfolding retain_mut
  retain_mut-Sorted f [] s = tt
  retain_mut-Sorted f ((k, v) ∷ es) s =
      ground (arith, retain_mut-Sorted f es s.1, retain_mut-Above k f es s.0)

  update-Sorted : (f : V → V) (es : List (K × V)) → Sorted es → Sorted (map (λ e. (e.0, f e.1)) es)
  update-Sorted f [] s = tt
  update-Sorted f (e ∷ es) s = (update-Above e.0 f es s.0, update-Sorted f es s.1)

  pub insert-IsSorted : (m : FlatMap K V) (q : K) (w : V) → IsSorted m → IsSorted (insert m q w).0
  insert-IsSorted m q w s = rw (insert-eq m q w) (put-Sorted m.entries q w s)

  pub remove-IsSorted : (m : FlatMap K V) (q : K) → IsSorted m → IsSorted (remove m q).0
  remove-IsSorted m q s = rw (remove-eq m q) (cut-Sorted m.entries q s)

  pub modify-IsSorted : (m : FlatMap K V) (q : K) (f : V → V) → IsSorted m → IsSorted (modify m q f)
  modify-IsSorted m q f s = rw (modify-eq m q f) (alter-Sorted m.entries q f s)

  pub retain-IsSorted :
      (f : K → V → V × Bool) (m : FlatMap K V) → IsSorted m → IsSorted (retain f m)
  unfolding retain
  retain-IsSorted f m s = retain_mut-Sorted f m.entries s

  pub update_values-IsSorted :
      (f : V → V) (m : FlatMap K V) → IsSorted m → IsSorted (update_values f m)
  unfolding update_values
  update_values-IsSorted f m s = update-Sorted f m.entries s

  pub or_insert-IsSorted :
      (m : FlatMap K V) (q : K) (d : V) → IsSorted m → IsSorted (or_insert m q d).0
  unfolding or_insert
  or_insert-IsSorted m q d s = ground (arith, insert-IsSorted m q d s)

  pub pop_first-IsSorted : (m : FlatMap K V) → IsSorted m → IsSorted (pop_first m).0
  unfolding pop_first
  pop_first-IsSorted m s = ground arith

-- The empty map is sorted.
module _ {ℓ κ} (K : Type ℓ) (V : Type κ) ⦃o : Ord K⦄ where
  pub new-IsSorted : IsSorted {K = K} {V = V} new
  unfolding new
  new-IsSorted = tt

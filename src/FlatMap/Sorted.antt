-- ===== src/FlatMap/Sorted.antt =====
-- The vector of a map sorted by key, which `binary_search_by` asks for, and the operations of
-- flat_map.rs as recursions over it.
use ziggurat.Base.{
  ℕ, ◌≡◌, refl, Bool, true, false, Option, none, some, List, [], ◌∷◌, Result, ok, err, get_elem?,
  insert_at, remove_at, is_some, Ordering, arith, All,
}
use ziggurat.Base.Order.{Ord}
use ziggurat.FlatMap.{
  FlatMap, shift, search, index_of, get, contains_key, modify_at, modify, insert, remove,
}
use mathlib.Core.Option

abbrev found : Result ℕ ℕ → Bool
found (ok i) = true
found (err i) = false

found-shift : (r : Result ℕ ℕ) → found (shift r) ≡ found r
unfolding shift
found-shift (ok i) = refl
found-shift (err i) = refl

module _ {ℓ κ} {K : Type ℓ} {V : Type κ} ⦃o : Ord K⦄ where
  -- Every key of the vector lies above `k`.
  abbrev pub Above : K → List (K × V) → Type 0
  Above k = All (λ e. o.cmp k e.0 ≡ Ordering.lt)

  abbrev pub Sorted : List (K × V) → Type 0
  Sorted [] = Unit
  Sorted (e ∷ es) = Above e.0 es × Sorted es

  abbrev pub IsSorted : FlatMap K V → Type 0
  IsSorted m = Sorted m.entries

  -- The operations as recursions over the vector.
  unfoldable pub lookup : List (K × V) → K → Option V
  lookup [] q = none
  lookup ((k, v) ∷ es) q = elim (o.cmp k q) [
    | Ordering.lt ↦ lookup es q
    | Ordering.eq ↦ some v
    | Ordering.gt ↦ none
  ]

  unfoldable pub put : List (K × V) → K → V → List (K × V)
  put [] q w = (q, w) ∷ []
  put ((k, v) ∷ es) q w = elim (o.cmp k q) [
    | Ordering.lt ↦ (k, v) ∷ put es q w
    | Ordering.eq ↦ (k, w) ∷ es
    | Ordering.gt ↦ (q, w) ∷ (k, v) ∷ es
  ]

  unfoldable pub cut : List (K × V) → K → List (K × V)
  cut [] q = []
  cut ((k, v) ∷ es) q = elim (o.cmp k q) [
    | Ordering.lt ↦ (k, v) ∷ cut es q
    | Ordering.eq ↦ es
    | Ordering.gt ↦ (k, v) ∷ es
  ]

  unfoldable pub alter : List (K × V) → K → (V → V) → List (K × V)
  alter [] q f = []
  alter ((k, v) ∷ es) q f = elim (o.cmp k q) [
    | Ordering.lt ↦ (k, v) ∷ alter es q f
    | Ordering.eq ↦ (k, f v) ∷ es
    | Ordering.gt ↦ (k, v) ∷ es
  ]

  -- What each operation does with the index that the search returned.
  abbrev read_at : List (K × V) → Result ℕ ℕ → Option V
  read_at es (ok i) = Option.map (λ e. e.1) (get_elem? es i)
  read_at es (err i) = none

  abbrev put_at : List (K × V) → K → V → Result ℕ ℕ → List (K × V)
  put_at es q w (ok i) = modify_at (λ _. w) es i
  put_at es q w (err i) = insert_at es i (q, w)

  abbrev cut_at : List (K × V) → Result ℕ ℕ → List (K × V)
  cut_at es (ok i) = remove_at es i
  cut_at es (err i) = es

  abbrev alter_at : List (K × V) → (V → V) → Result ℕ ℕ → List (K × V)
  alter_at es f (ok i) = modify_at f es i
  alter_at es f (err i) = es

  read_at-shift :
      (e : K × V) (es : List (K × V)) (r : Result ℕ ℕ) → read_at (e ∷ es) (shift r) ≡ read_at es r
  unfolding shift
  read_at-shift e es (ok i) = refl
  read_at-shift e es (err i) = refl

  put_at-shift :
      (e : K × V) (es : List (K × V)) (q : K) (w : V) (r : Result ℕ ℕ)
      → put_at (e ∷ es) q w (shift r) ≡ e ∷ put_at es q w r
  unfolding shift modify_at
  put_at-shift e es q w (ok i) = refl
  put_at-shift e es q w (err i) = refl

  cut_at-shift :
      (e : K × V) (es : List (K × V)) (r : Result ℕ ℕ) → cut_at (e ∷ es) (shift r) ≡ e ∷ cut_at es r
  unfolding shift
  cut_at-shift e es (ok i) = refl
  cut_at-shift e es (err i) = refl

  alter_at-shift :
      (e : K × V) (es : List (K × V)) (f : V → V) (r : Result ℕ ℕ)
      → alter_at (e ∷ es) f (shift r) ≡ e ∷ alter_at es f r
  unfolding shift modify_at
  alter_at-shift e es f (ok i) = refl
  alter_at-shift e es f (err i) = refl

  read_at-search : (es : List (K × V)) (q : K) → read_at es (search es q) ≡ lookup es q
  unfolding search lookup
  read_at-search [] q = refl
  read_at-search ((k, v) ∷ es) q =
      ground (arith, read_at-shift (k, v) es (search es q), read_at-search es q)

  put_at-search : (es : List (K × V)) (q : K) (w : V) → put_at es q w (search es q) ≡ put es q w
  unfolding search put modify_at
  put_at-search [] q w = refl
  put_at-search ((k, v) ∷ es) q w =
      ground (arith, put_at-shift (k, v) es q w (search es q), put_at-search es q w)

  cut_at-search : (es : List (K × V)) (q : K) → cut_at es (search es q) ≡ cut es q
  unfolding search cut
  cut_at-search [] q = refl
  cut_at-search ((k, v) ∷ es) q =
      ground (arith, cut_at-shift (k, v) es (search es q), cut_at-search es q)

  alter_at-search :
      (es : List (K × V)) (q : K) (f : V → V) → alter_at es f (search es q) ≡ alter es q f
  unfolding search alter modify_at
  alter_at-search [] q f = refl
  alter_at-search ((k, v) ∷ es) q f =
      ground (arith, alter_at-shift (k, v) es f (search es q), alter_at-search es q f)

  pub get-eq : (m : FlatMap K V) (q : K) → get m q ≡ lookup m.entries q
  unfolding get index_of
  get-eq m q = ground (arith, read_at-search m.entries q)

  found-search : (es : List (K × V)) (q : K) → found (search es q) ≡ is_some (lookup es q)
  unfolding search lookup
  found-search [] q = refl
  found-search ((k, v) ∷ es) q = ground (arith, found-shift (search es q), found-search es q)

  pub contains_key-eq : (m : FlatMap K V) (q : K) → contains_key m q ≡ is_some (get m q)
  unfolding contains_key index_of
  contains_key-eq m q = ground (arith, found-search m.entries q, get-eq m q)

  pub insert-eq : (m : FlatMap K V) (q : K) (w : V) → (insert m q w).0.entries ≡ put m.entries q w
  unfolding insert index_of
  insert-eq m q w = ground (arith, put_at-search m.entries q w)

  pub remove-eq : (m : FlatMap K V) (q : K) → (remove m q).0.entries ≡ cut m.entries q
  unfolding remove index_of
  remove-eq m q = ground (arith, cut_at-search m.entries q)

  pub modify-eq :
      (m : FlatMap K V) (q : K) (f : V → V) → (modify m q f).entries ≡ alter m.entries q f
  unfolding modify index_of
  modify-eq m q f = ground (arith, alter_at-search m.entries q f)

  pub insert_old : (m : FlatMap K V) (q : K) (w : V) → (insert m q w).1 ≡ get m q
  unfolding insert get
  insert_old m q w = ground arith

  pub remove_old : (m : FlatMap K V) (q : K) → (remove m q).1 ≡ get m q
  unfolding remove get
  remove_old m q = ground arith

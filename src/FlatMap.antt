-- ===== src/FlatMap.antt =====
-- crates/ziggurat-zigbee/src/flat_map.rs: a map as a vector of entries sorted by key.
pub mod Sorted
pub mod StaysSorted
pub mod Laws
pub mod Entries
pub mod Set
pub mod Everywhere
pub mod Sizes
pub mod Drain
pub mod Totals
pub mod Twice
pub mod Survivors
use ziggurat.Base.{
  ℕ, zero, suc, ◌≡◌, Bool, true, false, Option, none, some, List, [], ◌∷◌, if◌then◌else◌, Result,
  ok, err, get_elem?, insert_at, remove_at, length, is_none, is_some, map, Ordering,
}
use ziggurat.Base.Order.{Ord}
use mathlib.Core.Option

-- `FlatMap<K, V>`.
pub record FlatMap {ℓ κ} (K : Type ℓ) (V : Type κ) : Type (ℓ ⊔ κ) where
  pub entries : List (K × V)

-- One step to the right in the vector.
unfoldable pub shift : Result ℕ ℕ → Result ℕ ℕ
shift (ok i) = ok (suc i)
shift (err i) = err (suc i)

module _ {ℓ κ} {K : Type ℓ} {V : Type κ} where
  unfoldable pub new : FlatMap K V
  new = record { entries = [] }

  pub clear : FlatMap K V → FlatMap K V
  clear m = record m { entries = [] }

  pub len : FlatMap K V → ℕ
  len m = length m.entries

  unfoldable pub values : FlatMap K V → List V
  values m = map (λ e. e.1) m.entries

  -- A write through `&mut self.entries[i].1`.
  unfoldable pub modify_at : (V → V) → List (K × V) → ℕ → List (K × V)
  modify_at f [] i = []
  modify_at f ((k, v) ∷ es) zero = (k, f v) ∷ es
  modify_at f (e ∷ es) (suc i) = e ∷ modify_at f es i

  -- `Vec::retain_mut`: each value may change before the test says whether its entry stays.
  unfoldable pub retain_mut : (K → V → V × Bool) → List (K × V) → List (K × V)
  retain_mut f [] = []
  retain_mut f ((k, v) ∷ es) =
      let rest = retain_mut f es in let (w, keep) = f k v in if keep then (k, w) ∷ rest else rest

  unfoldable pub retain : (K → V → V × Bool) → FlatMap K V → FlatMap K V
  retain f m = record { entries = retain_mut f m.entries }

  -- `for v in m.values_mut() { v = f(v) }`.
  unfoldable pub update_values : (V → V) → FlatMap K V → FlatMap K V
  update_values f m = record { entries = map (λ e. (e.0, f e.1)) m.entries }

  pub pop_first : FlatMap K V → FlatMap K V × Option (K × V)
  pop_first m = elim m.entries [ [] ↦ (m, none) | e ∷ es ↦ (record { entries = es }, some e) ]

module _ {ℓ κ} {K : Type ℓ} {V : Type κ} ⦃o : Ord K⦄ where
  -- What `binary_search_by` promises of a sorted vector: the key's index, or the index at which
  -- it could be inserted.
  unfoldable pub search : List (K × V) → K → Result ℕ ℕ
  search [] q = err 0
  search ((k, v) ∷ es) q = elim (o.cmp k q) [
    | Ordering.lt ↦ shift (search es q)
    | Ordering.eq ↦ ok 0
    | Ordering.gt ↦ err 0
  ]

  unfoldable pub index_of : FlatMap K V → K → Result ℕ ℕ
  index_of m q = search m.entries q

  unfoldable pub get : FlatMap K V → K → Option V
  get m q = elim (index_of m q) [
    | ok i ↦ Option.map (λ e. e.1) (get_elem? m.entries i)
    | err i ↦ none
  ]

  unfoldable pub contains_key : FlatMap K V → K → Bool
  contains_key m q = elim (index_of m q) [ ok i ↦ true | err i ↦ false ]

  -- `if let Some(v) = m.get_mut(q) { v = f(v) }`.
  unfoldable pub modify : FlatMap K V → K → (V → V) → FlatMap K V
  modify m q f = elim (index_of m q) [
    | ok i ↦ record { entries = modify_at f m.entries i }
    | err i ↦ m
  ]

  -- The new map, and the value that the key had.
  unfoldable pub insert : FlatMap K V → K → V → FlatMap K V × Option V
  insert m q w = elim (index_of m q) [
    | ok i ↦ (
      record { entries = modify_at (λ _. w) m.entries i },
      Option.map (λ e. e.1) (get_elem? m.entries i),
    )
    | err i ↦ (record { entries = insert_at m.entries i (q, w) }, none)
  ]

  unfoldable pub remove : FlatMap K V → K → FlatMap K V × Option V
  remove m q = elim (index_of m q) [
    | ok i ↦
        (record { entries = remove_at m.entries i }, Option.map (λ e. e.1) (get_elem? m.entries i))
    | err i ↦ (m, none)
  ]

  -- `m.entry(q).or_insert_with(|| d)`, and the value that it refers to.
  unfoldable pub or_insert : FlatMap K V → K → V → FlatMap K V × V
  or_insert m q d = elim (get m q) [ some v ↦ (m, v) | none ↦ ((insert m q d).0, d) ]

  -- `Extend::extend`, also behind `collect`.
  pub extend : FlatMap K V → List (K × V) → FlatMap K V
  extend m [] = m
  extend m ((k, v) ∷ es) = extend (insert m k v).0 es

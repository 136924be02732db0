-- ===== src/FlatMap/Set.antt =====
-- crates/ziggurat-zigbee/src/flat_map.rs: `FlatSet<T>`, a `FlatMap<T, ()>`.
use ziggurat.Base.{◌≡◌, Bool, true, false, if◌then◌else◌, is_some, is_none, arith}
use ziggurat.Base.Order.{Ord, key_eq}
use ziggurat.FlatMap
use ziggurat.FlatMap.{FlatMap}
use ziggurat.FlatMap.Sorted.{contains_key-eq, insert_old}
use ziggurat.FlatMap.Laws.{get-insert, get-new}

pub record FlatSet {ℓ} (T : Type ℓ) : Type ℓ where
  pub map : FlatMap T (Unit {0})

module _ {ℓ} {T : Type ℓ} where
  pub empty : FlatSet T
  empty = record { map = FlatMap.new }

  pub clear : FlatSet T → FlatSet T
  clear s = record { map = FlatMap.clear s.map }

module _ {ℓ} {T : Type ℓ} ⦃o : Ord T⦄ where
  -- The Boolean tells whether the value is new.
  pub insert : FlatSet T → T → FlatSet T × Bool
  insert s v = let (m, old) = FlatMap.insert s.map v tt in (record { map = m }, is_none old)

  pub contains : FlatSet T → T → Bool
  contains s v = FlatMap.contains_key s.map v

  pub remove : FlatSet T → T → FlatSet T × Bool
  remove s v = let (m, old) = FlatMap.remove s.map v in (record { map = m }, is_some old)

  pub contains-empty : (v : T) → contains empty v ≡ false
  unfolding contains empty
  contains-empty v =
      ground (arith, contains_key-eq {V = Unit {0}} FlatMap.new v, get-new {V = Unit {0}} v)

  -- An inserted value is contained, and no other changes.
  pub contains-insert :
      (s : FlatSet T) (v p : T)
      → contains (insert s v).0 p ≡ (if key_eq v p then true else contains s p)
  unfolding contains insert
  contains-insert s v p = ground (
    arith,
    contains_key-eq s.map p,
    contains_key-eq (FlatMap.insert s.map v tt).0 p,
    get-insert s.map v p tt,
  )

  -- `insert` says whether the value was missing.
  pub insert_new : (s : FlatSet T) (v : T) → (insert s v).1 ≡ is_none (FlatMap.get s.map v)
  unfolding insert
  insert_new s v = ground (arith, insert_old s.map v tt)

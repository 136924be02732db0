-- ===== src/Base/Order.antt =====
-- The bound `K: Ord` of the tables, with the laws that the trait asks of `cmp`; `==` on keys is
-- the equality of `cmp`.
use Prim.Native.Nat.{ℕ, compare, Ordering}
use Prim.Native.Nat.Ordering.{lt, eq, gt}
use mathlib.Core.Path.{◌≡◌}
use mathlib.Core.Bool.{Bool, true, false}
use native.Mathlib.Omega.{arith}

-- `Ordering::reverse`.
abbrev pub reverse : Ordering → Ordering
reverse lt = gt
reverse eq = eq
reverse gt = lt

pub record Ord {ℓ} (K : Type ℓ) : Type ℓ where
  pub cmp : K → K → Ordering
  pub cmp_refl : (k : K) → cmp k k ≡ eq
  pub cmp_flip : (j k : K) → cmp k j ≡ reverse (cmp j k)
  pub eq_of_cmp : (j k : K) → cmp j k ≡ eq → j ≡ k
  pub lt_trans : (i j k : K) → cmp i j ≡ lt → cmp j k ≡ lt → cmp i k ≡ lt

module _ {ℓ} {K : Type ℓ} ⦃o : Ord K⦄ where
  abbrev pub key_eq : K → K → Bool
  key_eq j k = elim (o.cmp j k) [ eq ↦ true | _ ↦ false ]

  pub gt_of_lt : (j k : K) → o.cmp j k ≡ lt → o.cmp k j ≡ gt
  gt_of_lt j k h = rw (o.cmp_flip j k, h)

  pub lt_of_gt : (j k : K) → o.cmp j k ≡ gt → o.cmp k j ≡ lt
  lt_of_gt j k h = rw (o.cmp_flip j k, h)

pub compare_refl : (k : ℕ) → compare k k ≡ eq
compare_refl k = ground arith

pub compare_flip : (j k : ℕ) → compare k j ≡ reverse (compare j k)
compare_flip j k = ground arith

pub compare_injective : (j k : ℕ) → compare j k ≡ eq → j ≡ k
compare_injective j k h = ground arith

pub compare_trans : (i j k : ℕ) → compare i j ≡ lt → compare j k ≡ lt → compare i k ≡ lt
compare_trans i j k h l = ground arith

instance abbrev pub nat_ord : Ord ℕ
nat_ord = record {
  cmp = compare;
  cmp_refl = compare_refl;
  cmp_flip = compare_flip;
  eq_of_cmp = compare_injective;
  lt_trans = compare_trans;
}

-- The second comparison decides where the first finds the keys equal.
abbrev pub and_then : Ordering → Ordering → Ordering
and_then eq o = o
and_then lt o = lt
and_then gt o = gt

-- Pairs compare lexicographically.
abbrev pub pair_cmp : ℕ × ℕ → ℕ × ℕ → Ordering
pair_cmp x y = and_then (compare x.0 y.0) (compare x.1 y.1)

pub pair_cmp_refl : (k : ℕ × ℕ) → pair_cmp k k ≡ eq
pair_cmp_refl k = ground arith

pub pair_cmp_flip : (j k : ℕ × ℕ) → pair_cmp k j ≡ reverse (pair_cmp j k)
pair_cmp_flip j k = ground arith

pub pair_cmp_injective : (j k : ℕ × ℕ) → pair_cmp j k ≡ eq → j ≡ k
pair_cmp_injective j k h = ground arith

pub pair_cmp_trans : (i j k : ℕ × ℕ) → pair_cmp i j ≡ lt → pair_cmp j k ≡ lt → pair_cmp i k ≡ lt
pair_cmp_trans i j k h l = ground arith

instance abbrev pub pair_ord : Ord (ℕ × ℕ)
pair_ord = record {
  cmp = pair_cmp;
  cmp_refl = pair_cmp_refl;
  cmp_flip = pair_cmp_flip;
  eq_of_cmp = pair_cmp_injective;
  lt_trans = pair_cmp_trans;
}

-- ===== src/Sends/Sweep.antt =====
-- A sweep over a send table, which changes every record and settles the selected ones, keeps the books.
use mathlib.Core.Option.{some-injective, some-ne-none}
use mathlib.Core.Option
use ziggurat.Base.{
  ℕ, ◌≡◌, refl, sym, ◌∙◌, subst, Bool, false, Option, none, some, List, [], ◌∷◌, if◌then◌else◌,
  arith, Option-cases, inl, inr, is_none, map, All, ap,
}
use ziggurat.Base.Order.{nat_ord}
use ziggurat.FlatMap.{FlatMap, get, update_values}
use ziggurat.FlatMap.StaysSorted.{update_values-IsSorted}
use ziggurat.FlatMap.Laws.{get-update_values}
use ziggurat.FlatMap.Entries.{get-All}
use ziggurat.FlatMap.Everywhere.{Everywhere}
use ziggurat.FlatMap.Totals.{
  total, total_of, selected_weight, total-unselected, unselected-IsSorted, get-unselected,
}
use ziggurat.FlatMap.Drain.{collect, drain, unselected, emitted, drain-update, update_values_self}
use ziggurat.Sends.{Action}
use ziggurat.Sends.Ledger.{settled_weight, settled_weight-append, lent, lent_value, IsValid, Keeps}

-- A run ends with no panic, and keeps the books.
abbrev pub Runs :
    {V W : Type 0} (waiter : V → W) (is_lent : V → Bool) (Ok : V → Type 0) (F E : Type 0)
    → FlatMap ℕ V
    → Option (FlatMap ℕ V × List (Action F W E))
    → (ℕ → Bool)
    → Type 0
Runs {V} {W} waiter is_lent Ok F E m result loans =
    (n : FlatMap ℕ V) × (acts : List (Action F W E)) × (result ≡ some (n, acts))
    × Keeps waiter is_lent Ok F E m n acts loans

module _ {V U : Type 0} where
  total-changed :
      (h : V → U) (w : V → ℕ) (u : U → ℕ) (es : List (ℕ × V))
      → ((v : V) → u (h v) ≡ w v)
      → total_of u (map (λ e. (e.0, h e.1)) es) ≡ total_of w es
  unfolding total_of
  total-changed h w u [] e = refl
  total-changed h w u ((k, v) ∷ es) e = omega (arith, e v, total-changed h w u es e)

module _ {F E V W X : Type 0} (waiter : V → W) (is_lent : V → Bool) (Ok : V → Type 0) (h : V → V)
    (select : ℕ → V → Option X) (f : ℕ → V → X → Option (List (Action F W E)))
    (g : ℕ → V → X → List (Action F W E)) where
  -- What a selected record gives: its actions, which settle its waiter; it is not on loan.
  abbrev pub Settles : Type 0
  Settles =
      (k : ℕ) (v : V) (x : X)
      → Ok v
      → select k v ≡ some x
      → (f k (h v) x ≡ some (g k v x))
        × (is_lent v ≡ false)
        × ((w : W → ℕ) → settled_weight w (g k v x) ≡ w (waiter v))

  module _ (same_waiter : (v : V) → waiter (h v) ≡ waiter v)
      (same_loan : (v : V) → is_lent (h v) ≡ is_lent v) (settles : Settles)
      (stays : (k : ℕ) (v : V) → Ok v → select k v ≡ none → Ok (h v)) (m : FlatMap ℕ V)
      (valid : IsValid waiter is_lent Ok m) where
    rest : FlatMap ℕ V
    rest = record { entries = unselected select m.entries }

    result : FlatMap ℕ V
    result = update_values h rest

    weights :
        (w : W → ℕ) (es : List (ℕ × V))
        → All (λ e. Ok e.1) es
        → settled_weight w (emitted select g es) ≡ selected_weight select (λ v. w (waiter v)) es
    unfolding emitted selected_weight settled_weight
    weights w [] a = refl
    weights w ((k, v) ∷ es) a = elim (Option-cases (select k v)) [
      | inl skip ↦ rw (skip, emitted, selected_weight) (weights w es a.1)
      | inr (x, take) ↦
          rw (take, emitted, selected_weight)
            (omega (
              arith,
              settled_weight-append w (g k v x) (emitted select g es),
              (settles k v x a.0 take).2 w,
              weights w es a.1,
            ))
    ]

    each_entry : All (λ e. Ok e.1) m.entries
    each_entry = get-All (λ e. Ok e.1) m valid.sorted valid.each

    get-result :
        (k : ℕ)
        → get result k
          ≡ Option.map h
              (Option.bind (get m k) (λ v. if is_none (select k v) then some v else none))
    unfolding result rest
    get-result k =
        get-update_values h _ k ∙ ap (Option.map h) (get-unselected select m k valid.sorted)

    cases :
        (k : ℕ) (o : Option V)
        → get m k ≡ o
        → (lent_value is_lent
              (Option.map h (Option.bind o (λ v. if is_none (select k v) then some v else none)))
            ≡ lent_value is_lent o)
    unfolding lent_value Option.bind
    cases k none e = refl
    cases k (some v) e = elim (Option-cases (select k v)) [
      | inl skip ↦ rw skip (same_loan v)
      | inr (x, take) ↦ rw take (sym ((settles k v x (valid.each k v e) take).1))
    ]

    each_result : Everywhere (λ k. Ok) result
    unfolding Option.bind
    each_result k v e = back (get m k) refl (sym (get-result k) ∙ e)
      where
        back :
            (o : Option V)
            → get m k ≡ o
            → Option.map h (Option.bind o (λ u. if is_none (select k u) then some u else none))
              ≡ some v
            → Ok v
        back none g e = absurd (some-ne-none v (sym e))
        back (some u) g e = elim (Option-cases (select k u)) [
          | inl skip ↦
              subst Ok (some-injective (h u) v (rw skip at e)) (stays k u (valid.each k u g) skip)
          | inr (x, take) ↦ absurd (some-ne-none v (sym (rw take at e)))
        ]

    known_result : (k : ℕ) → get m k ≡ none → get result k ≡ none
    unfolding Option.bind
    known_result k e = get-result k ∙ rw e refl

    -- The sweep runs without a panic, and loans nothing.
    pub sweep-Runs :
        Runs waiter is_lent Ok F E m
          (drain f (collect select m.entries) (update_values h m))
          (lent is_lent m)
    unfolding update_values result rest total lent
    sweep-Runs = (
      result,
      emitted select g m.entries,
      drain-update h select f g m valid.sorted
          (get-All _ m valid.sorted (λ k v e x t. (settles k v x (valid.each k v e) t).0)),
      record {
        valid = record {
          sorted = update_values-IsSorted h rest (unselected-IsSorted select m valid.sorted);
          each = each_result;
        };
        loaned = λ k. ap (lent_value is_lent) (get-result k) ∙ cases k (get m k) refl;
        conserved = λ w. omega (
          arith,
          total-unselected select (λ v. w (waiter v)) m.entries,
          weights w m.entries each_entry,
          total-changed h (λ v. w (waiter v)) (λ v. w (waiter v)) (unselected select m.entries)
              (λ v. ap w (same_waiter v)),
        );
        known = known_result;
      },
    )

-- A sweep that changes no record.
module _ {F E V W X : Type 0} (waiter : V → W) (is_lent : V → Bool) (Ok : V → Type 0)
    (select : ℕ → V → Option X) (f : ℕ → V → X → Option (List (Action F W E)))
    (g : ℕ → V → X → List (Action F W E)) (settles : Settles waiter is_lent Ok (λ v. v) select f g)
    (m : FlatMap ℕ V) (valid : IsValid waiter is_lent Ok m) where
  pub settle_all-Runs :
      Runs waiter is_lent Ok F E m (drain f (collect select m.entries) m) (lent is_lent m)
  settle_all-Runs = rw (update_values_self m) at (
      sweep-Runs waiter is_lent Ok (λ v. v) select f g (λ v. refl) (λ v. refl) settles
        (λ k v p e. p) m valid)

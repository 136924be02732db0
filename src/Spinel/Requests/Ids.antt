-- ===== src/Spinel/Requests/Ids.antt =====
-- The transaction ids that requests get: one of the seven that is free, if there is one.
use ziggurat.Base.{
  ℕ, zero, suc, ◌+◌, ◌-◌, ◌%◌, ◌≤◌, ◌<◌, ◌≡◌, sym, true, false, Option, none, some, ◌==◌, arith,
  inl, inr, Bool-cases, subst,
}
use ziggurat.Base.Order.{nat_ord}
use ziggurat.FlatMap.{FlatMap, contains_key}
use ziggurat.Spinel.Requests.{next_of, free_tid}

-- The id after `i` steps from the first.
abbrev nth_tid : ℕ → ℕ → ℕ
nth_tid first i = 1 + (first + 6 + i) % 7

module _ {W : Type 0} (pending : FlatMap ℕ W) where
  -- What the search finds from the `i`th id on.
  Outcome : ℕ → ℕ → Option ℕ → Type 0
  Outcome first i none = (j : ℕ) → i ≤ j → j < 7 → contains_key pending (nth_tid first j) ≡ true
  Outcome first i (some t) = (1 ≤ t) × (t ≤ 7) × (contains_key pending t ≡ false)

  from_next :
      (first i : ℕ) (o : Option ℕ)
      → contains_key pending (nth_tid first i) ≡ true
      → Outcome first (i + 1) o
      → Outcome first i o
  unfolding Outcome
  from_next first i none e r = λ j l h. elim (Bool-cases (j == i)) [
    | inl same ↦
        let eq : j ≡ i = ground (arith, same) in
        subst (λ x. contains_key pending (nth_tid first x) ≡ true) (sym eq) e
    | inr more ↦ r j (ground arith) h
  ]
  from_next first i (some t) e r = r

  search :
      (n first i : ℕ)
      → 1 ≤ first
      → first ≤ 7
      → n + i ≡ 7
      → 0 < n
      → Outcome first i (free_tid n pending first (nth_tid first i))
  unfolding free_tid Outcome
  search zero first i a b l p = absurd (omega arith)
  search (suc n) first i a b l p = elim (Bool-cases (contains_key pending (nth_tid first i))) [
    | inr free ↦ rw free (omega arith, omega arith, free)
    | inl taken ↦
        let step : next_of (nth_tid first i) ≡ nth_tid first (i + 1) = omega (arith, a, b) in
        elim (Bool-cases (nth_tid first (i + 1) == first)) [
          | inl back ↦
              rw (taken, step, back)
                (from_next first i none taken
                  (λ j h k. absurd (ground (arith, back, l, a, b, h, k))))
          | inr on ↦
              rw (taken, step, on)
                (from_next first i (free_tid n pending first (nth_tid first (i + 1))) taken
                  (search n first (i + 1) a b (omega arith) (ground (arith, on, l, a, b))))
        ]
  ]

  -- From a first id of the seven, the search finds a free one of them, or all are taken.
  pub free_tid-lem :
      (first : ℕ)
      → 1 ≤ first
      → first ≤ 7
      → ((t : ℕ)
          → free_tid 7 pending first first ≡ some t
          → (1 ≤ t) × (t ≤ 7) × (contains_key pending t ≡ false))
        × (free_tid 7 pending first first ≡ none
            → (t : ℕ) → 1 ≤ t
            → t ≤ 7
            → contains_key pending t ≡ true)
  unfolding Outcome
  free_tid-lem first a b =
      let start : nth_tid first 0 ≡ first = omega (arith, a, b) in
      let found =
        subst (λ x. Outcome first 0 (free_tid 7 pending first x)) start
          (search 7 first 0 a b (omega arith) (omega arith)) in
      (
        λ t e. subst (Outcome first 0) e found,
        λ e t l h.
            let place : nth_tid first ((t + 7 - first) % 7) ≡ t = omega (arith, a, b, l, h) in
            subst (λ x. contains_key pending x ≡ true) place
              (subst (Outcome first 0) e found ((t + 7 - first) % 7) (omega arith) (omega arith)),
      )

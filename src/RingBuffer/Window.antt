-- ===== src/RingBuffer/Window.antt =====
-- The ring as a window on its history: the last values pushed, oldest first.
use ziggurat.Base.{
  ℕ, min, ap₂, suc, ◌+◌, ◌%◌, ◌≤◌, ◌<◌, ◌≡◌, refl, true, false, List, [], ◌∷◌, ◌++◌, length, set,
  take, drop, tail, arith, if◌then◌else◌, ◌==◌, ◌⊎◌, inl, inr, length-set, length-replicate,
  take-set-suc, drop-set-suc, drop-length, take-length, tail-drop, ap, sym, ◌∙◌, Bool-cases,
}
use ziggurat.RingBuffer.{RingBuffer, new, push, capacity, is_full, stored}
use native.Mathlib.Nat.{mod-lt, mod-eq_of_lt, mod_self}
use mathlib.Core.List.{append-nil, append_assoc}

compare_self : (n : ℕ) → n == n ≡ true
compare_self n = ground arith

compare_lt : (m n : ℕ) → m < n → m == n ≡ false
compare_lt m n h = ground arith

next_step : (i n : ℕ) → i < n → n < 256 → (i + 1) % 256 % n ≡ (if (i + 1) == n then 0 else i + 1)
next_step i n h k =
    let small : (i + 1) % 256 ≡ i + 1 = omega arith in
    rw small (elim (Bool-cases ((i + 1) == n)) [
      | inl e ↦ rw e (next_last i n (ground arith))
      | inr e ↦ rw e (mod-eq_of_lt (ground arith))
    ])
  where
    next_last : (i n : ℕ) → i + 1 ≡ n → (i + 1) % n ≡ 0
    next_last i n e = rw e (mod_self n)

module _ {ℓ} {A : Type ℓ} where
  -- The write position is inside the array, and follows the values until the ring is full.
  pub record IsValid (r : RingBuffer A) : Type 0 where
    pub fits : capacity r ≤ 255
    pub inside : r.next < capacity r
    pub bounded : r.len ≤ capacity r
    pub filling : r.len < capacity r → r.next ≡ r.len

  -- Oldest first: the array is rotated at `next` once the ring is full.
  pub window : RingBuffer A → List A
  window r = if is_full r then drop r.next r.values ++ take r.next r.values else stored r

  pub new-IsValid : (n : ℕ) (d : A) → 0 < n → n ≤ 255 → IsValid (new n d)
  unfolding new capacity
  new-IsValid n d h k = record {
    fits = omega (arith, length-replicate n d);
    inside = omega (arith, length-replicate n d);
    bounded = omega arith;
    filling = λ _. refl;
  }

  capacity-push : (r : RingBuffer A) (v : A) → capacity (push r v) ≡ capacity r
  unfolding capacity push
  capacity-push r v = length-set r.values r.next v

  pub push-IsValid : (r : RingBuffer A) (v : A) → capacity r < 255 → IsValid r → IsValid (push r v)
  unfolding push capacity
  push-IsValid r v h s = record {
    fits = omega (arith, length-set r.values r.next v);
    inside = omega (
      arith,
      length-set r.values r.next v,
      mod-lt ((r.next + 1) % 256) {m = length r.values} (omega arith),
    );
    bounded = ground (arith, length-set r.values r.next v);
    filling = λ g.
        ground (arith, length-set r.values r.next v, next_step r.next (length r.values), s.filling);
  }

  -- Where the ring is written, seen as a window.
  wrapped : (xs : List A) (i : ℕ) (v : A) → i + 1 ≡ length xs → set xs i v ≡ take i xs ++ v ∷ []
  wrapped xs i v e =
      sym (take-length (set xs i v))
      ∙ ap (λ n. take n (set xs i v)) {y = suc i} (omega (arith, length-set xs i v))
      ∙ take-set-suc xs i v (omega arith)

  rotate : ℕ → List A → List A
  rotate n xs = drop n xs ++ take n xs

  window_full : (r : RingBuffer A) → r.len ≡ capacity r → window r ≡ rotate r.next r.values
  unfolding window is_full rotate
  window_full r e = rw (e, compare_self (capacity r))

  window_part : (r : RingBuffer A) → r.len < capacity r → window r ≡ take r.len r.values
  unfolding window is_full stored
  window_part r e = rw (compare_lt r.len (capacity r) e)

  -- The ring is written in the middle, or at its last place.
  push_at :
      (r : RingBuffer A) (v : A)
      → capacity r < 255
      → IsValid r
      → ((r.next + 1 < capacity r) × ((push r v).next ≡ suc r.next))
        ⊎ ((r.next + 1 ≡ capacity r) × ((push r v).next ≡ 0))
  unfolding push capacity
  push_at r v h s = ground (arith, next_step r.next (length r.values), s.inside)

  push_len :
      (r : RingBuffer A) (v : A)
      → capacity r < 255
      → IsValid r
      → (push r v).len ≡ min (r.len + 1) (capacity r)
  unfolding push capacity
  push_len r v h s = ground (arith, s.bounded)

  abbrev behind : A → List A → List A
  behind v xs = xs ++ v ∷ []

  push_part :
      (r : RingBuffer A) (v : A)
      → capacity r < 255
      → IsValid r
      → r.len < capacity r
      → window (push r v) ≡ behind v (window r)
  unfolding push capacity rotate
  push_part r v h s g =
      let at : r.next ≡ r.len = s.filling g in
      let old = ap (λ k. behind v (take k r.values)) at ∙ ap (behind v) (sym (window_part r g)) in
      elim (push_at r v h s) [
        | inl (middle, e) ↦
            window_part (push r v) (omega (arith, push_len r v h s, length-set r.values r.next v))
            ∙ ap (λ k. take k (set r.values r.next v)) {y = suc r.next}
                (omega (arith, push_len r v h s))
            ∙ take-set-suc r.values r.next v s.inside
            ∙ old
        | inr (final, e) ↦
            window_full (push r v) (omega (arith, push_len r v h s, length-set r.values r.next v))
            ∙ ap (λ k. rotate k (set r.values r.next v)) e
            ∙ append-nil (set r.values r.next v)
            ∙ wrapped r.values r.next v final
            ∙ old
      ]

  push_full :
      (r : RingBuffer A) (v : A)
      → capacity r < 255
      → IsValid r
      → r.len ≡ capacity r
      → window (push r v) ≡ behind v (tail (window r))
  unfolding push capacity rotate
  push_full r v h s g =
      let new =
        window_full (push r v) (omega (arith, push_len r v h s, length-set r.values r.next v)) in
      let old =
        ap (λ w. behind v (tail w)) (window_full r g)
        ∙ ap (behind v) (tail-drop r.values (take r.next r.values) r.next s.inside) in
      elim (push_at r v h s) [
        | inl (middle, e) ↦
            new
            ∙ ap (λ k. rotate k (set r.values r.next v)) e
            ∙ ap₂ ◌++◌ (drop-set-suc r.values r.next v) (take-set-suc r.values r.next v s.inside)
            ∙ sym (append_assoc (drop (suc r.next) r.values) (take r.next r.values) (v ∷ []))
            ∙ sym old
        | inr (final, e) ↦
            new
            ∙ ap (λ k. rotate k (set r.values r.next v)) e
            ∙ append-nil (set r.values r.next v)
            ∙ wrapped r.values r.next v final
            ∙ ap (λ xs. behind v (xs ++ take r.next r.values))
                (sym (drop-length r.values)
                  ∙ ap (λ k. drop k r.values) {y = suc r.next} (omega arith))
            ∙ sym old
      ]

  -- In a valid ring of fewer than 255 slots, a push appends the value to the window of the latest
  -- values, after the oldest one was dropped if the ring was full.
  pub window-push :
      (r : RingBuffer A) (v : A)
      → capacity r < 255
      → IsValid r
      → window (push r v) ≡ (if is_full r then tail (window r) else window r) ++ v ∷ []
  unfolding is_full
  window-push r v h s = elim (Bool-cases (r.len == capacity r)) [
    | inl e ↦ rw e (push_full r v h s (ground arith))
    | inr e ↦ rw e (push_part r v h s (ground (arith, s.bounded)))
  ]

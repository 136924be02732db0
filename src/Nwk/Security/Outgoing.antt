-- ===== src/Nwk/Security/Outgoing.antt =====
-- The outgoing frame counter: never reused, and never far ahead of its persisted copy.
use ziggurat.Base.{
  ℕ, zero, suc, ◌+◌, ◌/◌, ◌%◌, ◌≤◌, ◌<◌, ◌≡◌, ◌≢◌, refl, ap, sym, ◌∙◌, true, false, none, some,
  List, [], ◌∷◌, arith, if◌then◌else◌, u32_max, ◌↔◌, Option-cases, inl, inr, Bool-cases, All,
  All-map, Pairwise,
}
use ziggurat.Nwk.Security.{
  NwkSecurity, CounterAdvance, next_outgoing_frame_counter, advance_all, is_multiple_of,
}

-- The counter that the client would restore, after it followed each request to persist.
unfoldable pub persisted : ℕ → List CounterAdvance → ℕ
persisted p [] = p
persisted p (a ∷ rest) = persisted (if a.should_persist then a.value else p) rest

persisted_yes :
    (p : ℕ) (a : CounterAdvance) (rest : List CounterAdvance)
    → a.should_persist ≡ true
    → persisted p (a ∷ rest) ≡ persisted a.value rest
unfolding persisted
persisted_yes p a rest e = rw e

persisted_no :
    (p : ℕ) (a : CounterAdvance) (rest : List CounterAdvance)
    → a.should_persist ≡ false
    → persisted p (a ∷ rest) ≡ persisted p rest
unfolding persisted
persisted_no p a rest e = rw e

next_none :
    (s : NwkSecurity)
    → next_outgoing_frame_counter s ≡ none
    → u32_max ≤ s.primary.outgoing_frame_counter
unfolding next_outgoing_frame_counter
next_none s e = ground arith

next_cases :
    (s : NwkSecurity) (s' : NwkSecurity) (a : CounterAdvance)
    → next_outgoing_frame_counter s ≡ some (s', a)
    → (a.value ≡ s.primary.outgoing_frame_counter + 1)
      × (s'.primary.outgoing_frame_counter ≡ a.value)
      × (a.value ≤ u32_max)
      × (s'.persist_interval ≡ s.persist_interval)
      × (a.should_persist ≡ is_multiple_of a.value s.persist_interval)
unfolding next_outgoing_frame_counter
next_cases s s' a e = ground arith

advance_all-suc :
    (k : ℕ) (s : NwkSecurity) (t : NwkSecurity) (advances : List CounterAdvance)
    → advance_all (suc k) s ≡ some (t, advances)
    → (s' : NwkSecurity) × (a : CounterAdvance) × (rest : List CounterAdvance)
      × (next_outgoing_frame_counter s ≡ some (s', a))
      × (advance_all k s' ≡ some (t, rest))
      × (advances ≡ a ∷ rest)
unfolding advance_all
advance_all-suc k s t advances e = elim (Option-cases (next_outgoing_frame_counter s)) [
  | inl n ↦ absurd (ground (arith, n))
  | inr ((s', a), n) ↦ elim (Option-cases (advance_all k s')) [
    | inl m ↦ absurd (ground (arith, n, m))
    | inr ((u, rest), m) ↦ (s', a, rest, n, ground (arith, n, m), ground (arith, n, m))
  ]
]

-- Where a number of advances of the outgoing frame counter does not panic, the values given out
-- are above the counter at the start, within 32 bits and strictly increasing, and the counter has
-- grown by that number.
pub advance_all-increase :
    (k : ℕ) (s : NwkSecurity) {t : NwkSecurity} {advances : List CounterAdvance}
    → advance_all k s ≡ some (t, advances)
    → All (λ a. (s.primary.outgoing_frame_counter < a.value) × (a.value ≤ u32_max)) advances
      × Pairwise (λ a b. a.value < b.value) advances
      × (t.primary.outgoing_frame_counter ≡ s.primary.outgoing_frame_counter + k)
unfolding advance_all
advance_all-increase zero s e = ground arith
advance_all-increase (suc k) s {t} {advances} e =
    let (s', a, rest, n, m, same) = advance_all-suc k s t advances e in
    let (value, moved, bound, _, _) = next_cases s s' a n in
    let (above, ordered, total) = advance_all-increase k s' m in
    rw same (
      ((omega arith, bound), All-map (λ b h. (omega (arith, h), h.1)) rest above),
      (All-map (λ b h. omega (arith, h)) rest above, ordered),
      omega arith,
    )

div_close : (p c i : ℕ) → 0 < i → p ≤ c → p / i ≡ c / i → c < p + i
div_close p c i pos le e = grind arith

div_step : (c i : ℕ) → 0 < i → (c + 1) % i ≢ 0 → (c + 1) / i ≡ c / i
div_step c i pos n = grind arith

-- The same statement from any start whose persisted copy has no due value behind it.
lag :
    (k : ℕ) (s : NwkSecurity) (p : ℕ) {t : NwkSecurity} {advances : List CounterAdvance}
    → 0 < s.persist_interval
    → p ≤ s.primary.outgoing_frame_counter
    → p / s.persist_interval ≡ s.primary.outgoing_frame_counter / s.persist_interval
    → advance_all k s ≡ some (t, advances)
    → (persisted p advances ≤ t.primary.outgoing_frame_counter)
      × (t.primary.outgoing_frame_counter < persisted p advances + s.persist_interval)
unfolding advance_all persisted is_multiple_of
lag zero s p {t} {advances} pos le due e =
    ground (arith, div_close p s.primary.outgoing_frame_counter s.persist_interval pos le due)
lag (suc k) s p {t} {advances} pos le due e =
    let (s', a, rest, n, m, same) = advance_all-suc k s t advances e in
    let (value, moved, bound, kept, asks) = next_cases s s' a n in
    elim (Bool-cases a.should_persist) [
      | inl now ↦
          rw (same, persisted_yes p a rest now, ← kept)
            (lag k s' a.value (rw kept pos) (omega arith)
              (ap (λ c. c / s'.persist_interval) (sym moved)) m)
      | inr later ↦
          rw (same, persisted_no p a rest later, ← kept)
            (lag k s' p (rw kept pos) (omega arith)
              (rw (kept, moved, value)
                (due
                  ∙ sym (
                      div_step s.primary.outgoing_frame_counter s.persist_interval pos
                        (λ z. ground (arith, z)))))
              m)
    ]

-- With a positive persist interval, after any number of advances that do not panic, take the last
-- value that an advance asked to persist, or the counter at the start if none did: the counter at
-- the end is at least that value, and is below that value plus the interval.
pub persisted_lag :
    (k : ℕ) (s : NwkSecurity) {t : NwkSecurity} {advances : List CounterAdvance}
    → 0 < s.persist_interval
    → advance_all k s ≡ some (t, advances)
    → let p = persisted s.primary.outgoing_frame_counter advances in
      (p ≤ t.primary.outgoing_frame_counter)
      × (t.primary.outgoing_frame_counter < p + s.persist_interval)
persisted_lag k s pos e = lag k s s.primary.outgoing_frame_counter pos (omega arith) refl e

-- From a counter within 32 bits, a number of advances panics exactly if it takes the counter past
-- the largest 32-bit value.
pub advance_all-none :
    (k : ℕ) (s : NwkSecurity)
    → s.primary.outgoing_frame_counter ≤ u32_max
    → (advance_all k s ≡ none) ↔ (u32_max < s.primary.outgoing_frame_counter + k)
unfolding advance_all
advance_all-none zero s b = (λ e. ground arith, λ h. absurd (omega arith))
advance_all-none (suc k) s b = elim (Option-cases (next_outgoing_frame_counter s)) [
  | inl n ↦ rw (n, advance_all) (λ _. omega (arith, next_none s n), λ _. refl)
  | inr ((s', a), n) ↦
      let (value, moved, bound, _, _) = next_cases s s' a n in
      let ih = advance_all-none k s' (omega arith) in
      rw (n, advance_all)
        (λ e. omega (arith, ih.0 (ground (arith, e))), λ h. ground (arith, ih.1 (omega arith)))
]

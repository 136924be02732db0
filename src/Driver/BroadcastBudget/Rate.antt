-- ===== src/Driver/BroadcastBudget/Rate.antt =====
-- Histories of requests: how many broadcasts the budget lets through.
use ziggurat.Base.{
  ℕ, ◌≡◌, ◌≤◌, ◌<◌, ap, ◌+◌, ◌-◌, ◌*◌, Bool, true, false, List, [], ◌∷◌, if◌then◌else◌, ltb, inl,
  inr, Bool-cases, u64_max, arith,
}
use ziggurat.Driver.BroadcastBudget.{
  BroadcastBudget, BroadcastAdmission, TrafficClass, Tunables, floor, refill, draw, take,
}
use ziggurat.Driver.BroadcastBudget.Bounds.{Refilled, refill-Refilled, distribute}

pub record Request : Type 0 where
  pub class : TrafficClass
  pub now : ℕ

-- The answers to a history of requests.
unfoldable pub take_all :
    Tunables
    → BroadcastBudget
    → List Request
    → BroadcastBudget × List (Request × BroadcastAdmission)
take_all s b [] = (b, [])
take_all s b (q ∷ qs) =
    let (c, answer) = take b q.class q.now s in
    let (d, answers) = take_all s c qs in (d, (q, answer) ∷ answers)

abbrev pub is_critical : TrafficClass → Bool
is_critical TrafficClass.critical = true
is_critical _ = false

abbrev pub is_admitted : BroadcastAdmission → Bool
is_admitted BroadcastAdmission.admit = true
is_admitted (BroadcastAdmission.defer w) = false

-- How many requests below critical were admitted.
abbrev pub drawn : List (Request × BroadcastAdmission) → ℕ
drawn [] = 0
drawn ((q, answer) ∷ rest) =
    (if is_admitted answer then (if is_critical q.class then 0 else 1) else 0) + drawn rest

-- Each request is no earlier than the one before it.
abbrev pub Follow : ℕ → List Request → Type 0
Follow t [] = t ≤ u64_max
Follow t (q ∷ qs) = (t ≤ q.now) × Follow q.now qs

abbrev pub until : ℕ → List Request → ℕ
until t [] = t
until t (q ∷ qs) = until q.now qs

Follow-bound : (t : ℕ) (qs : List Request) → Follow t qs → t ≤ u64_max
Follow-bound t [] h = h
Follow-bound t (q ∷ qs) h = omega (arith, h.0, Follow-bound q.now qs h.1)

-- One request: it draws at most its token.
record Paid (b c : BroadcastBudget) (now interval : ℕ) (cost : ℕ) : Type 0 where
  pub not_ahead : c.last_refill ≤ now
  pub paid :
      cost * interval + c.tokens * interval + b.last_refill ≤ b.tokens * interval + c.last_refill

abbrev cost_of : TrafficClass → BroadcastAdmission → ℕ
cost_of class answer = if is_admitted answer then (if is_critical class then 0 else 1) else 0

spend : (n i : ℕ) → 0 < n → (n - 1) * i + i ≡ n * i
spend n i h =
    let same : n - 1 + 1 ≡ n = omega arith in
    omega (arith, ap (λ m. m * i) same, distribute (n - 1) 1 i)

draw-Paid :
    (b c : BroadcastBudget) (now capacity interval level : ℕ)
    → Refilled b c now capacity interval
    → Paid b
        (draw c level interval).0
        now
        interval
        (if is_admitted (draw c level interval).1 then 1 else 0)
unfolding draw
draw-Paid b c now capacity interval level r = elim (Bool-cases (ltb level c.tokens)) [
  | inl enough ↦
      rw (enough, draw)
        (record {
          not_ahead = r.not_ahead;
          paid = omega (arith, r.paid, spend c.tokens interval (ground (arith, enough)));
        })
  | inr short ↦ rw (short, draw) (record { not_ahead = r.not_ahead; paid = omega (arith, r.paid) })
]

module _ (s : Tunables) (pos : 0 < s.refill_interval) where
  take-Paid :
      (b : BroadcastBudget) (class : TrafficClass) (now : ℕ)
      → b.last_refill ≤ now
      → now ≤ u64_max
      → Paid b (take b class now s).0 now s.refill_interval (cost_of class (take b class now s).1)
  unfolding take
  take-Paid b TrafficClass.critical now le top =
      let r = refill-Refilled b now s.capacity s.refill_interval pos le top in
      record { not_ahead = r.not_ahead; paid = omega (arith, r.paid) }
  take-Paid b TrafficClass.host now le top =
      draw-Paid b (refill b now s.capacity s.refill_interval) now s.capacity s.refill_interval
        (floor TrafficClass.host s) (refill-Refilled b now s.capacity s.refill_interval pos le top)
  take-Paid b TrafficClass.forwarding now le top =
      draw-Paid b (refill b now s.capacity s.refill_interval) now s.capacity s.refill_interval
        (floor TrafficClass.forwarding s)
        (refill-Refilled b now s.capacity s.refill_interval pos le top)

  -- With a positive refill interval, for a history of requests in order of time that starts no
  -- earlier than the last refill: the requests below critical that are admitted, and the tokens
  -- left, cost an interval each, and together cost no more than the tokens at the start and the
  -- time between the two last refills; the final last refill is not after the last request.
  pub take_all_rate :
      (b : BroadcastBudget) (t : ℕ) (qs : List Request)
      → b.last_refill ≤ t
      → Follow t qs
      → let (c, answers) = take_all s b qs in
        (c.last_refill ≤ until t qs)
        × (drawn answers * s.refill_interval + c.tokens * s.refill_interval + b.last_refill
            ≤ b.tokens * s.refill_interval + c.last_refill)
  unfolding take_all
  take_all_rate b t [] le h = (le, omega arith)
  take_all_rate b t (q ∷ qs) le h =
      let one = take-Paid b q.class q.now (omega (arith, le, h.0)) (Follow-bound q.now qs h.1) in
      let (end, rest) = take_all_rate (take b q.class q.now s).0 q.now qs one.not_ahead h.1 in
      let answers = (take_all s (take b q.class q.now s).0 qs).1 in
      (
        end,
        omega (
          arith,
          one.paid,
          rest,
          distribute (cost_of q.class (take b q.class q.now s).1) (drawn answers) s.refill_interval,
        ),
      )

-- ===== src/Driver/BroadcastBudget/Bounds.antt =====
-- What one request does to the budget.
use ziggurat.Base.{ℕ, ◌≡◌, ◌≤◌, ◌<◌, refl, ◌+◌, ◌-◌, ◌*◌, ◌/◌, min, u64_max, arith}
use ziggurat.Time.{later, saturating_duration_since, saturating_mul}
use ziggurat.Driver.BroadcastBudget.{
  BroadcastBudget, BroadcastAdmission, TrafficClass, Tunables, floor, refill, draw, take,
}

div_bound : (a i : ℕ) → 0 < i → a / i * i ≤ a
div_bound a i h = grind arith

-- What a refill does: it stays within the capacity, and pays for each token with an interval.
pub record Refilled (b c : BroadcastBudget) (now capacity interval : ℕ) : Type 0 where
  pub within : c.tokens ≤ capacity
  pub not_ahead : c.last_refill ≤ now
  pub paid : c.tokens * interval + b.last_refill ≤ b.tokens * interval + c.last_refill

pub mult_mono : (a b i : ℕ) → a ≤ b → a * i ≤ b * i
mult_mono a b i h = grind arith

pub distribute : (a b i : ℕ) → (a + b) * i ≡ a * i + b * i
distribute a b i = grind arith

pub swap : (a b : ℕ) → a * b ≡ b * a
swap a b = grind arith

-- The tokens that accrued since the last refill, as far as there is room.
abbrev pub added : BroadcastBudget → ℕ → ℕ → ℕ → ℕ
added b now capacity interval =
    min (saturating_duration_since now b.last_refill / interval) (capacity - b.tokens)

added_bound :
    (b : BroadcastBudget) (now capacity interval : ℕ)
    → 0 < interval
    → added b now capacity interval * interval ≤ now - b.last_refill
unfolding saturating_duration_since
added_bound b now capacity interval pos =
    let accrued = (now - b.last_refill) / interval in
    let small : added b now capacity interval ≤ accrued = ground arith in
    omega (
      arith,
      mult_mono (added b now capacity interval) accrued interval small,
      div_bound (now - b.last_refill) interval pos,
    )

settle :
    (last now d n : ℕ)
    → d * n ≤ now - last
    → last ≤ now
    → now ≤ u64_max
    → later last (saturating_mul d n) ≡ last + d * n
unfolding later saturating_mul
settle last now d n h le top = ground arith

pub refill-Refilled :
    (b : BroadcastBudget) (now capacity interval : ℕ)
    → 0 < interval
    → b.last_refill ≤ now
    → now ≤ u64_max
    → Refilled b (refill b now capacity interval) now capacity interval
unfolding refill
refill-Refilled b now capacity interval pos le top =
    let n = added b now capacity interval in
    let fits = added_bound b now capacity interval pos in
    let at = settle b.last_refill now interval n (omega (arith, swap n interval)) le top in
    let spread = distribute b.tokens n interval in
    let more = mult_mono capacity b.tokens interval in
    let less = mult_mono capacity (b.tokens + n) interval in
    record {
      within = ground arith;
      not_ahead = ground (arith, at, fits, swap n interval);
      paid = ground (arith, at, fits, swap n interval, spread, more, less);
    }

draw_keeps :
    (b : BroadcastBudget) (level interval : ℕ)
    → (min level b.tokens ≤ (draw b level interval).0.tokens)
      × ((draw b level interval).0.tokens ≤ b.tokens)
unfolding draw
draw_keeps b level interval = ground arith

-- With a positive refill interval, a request at a time not before the last refill leaves the
-- tokens within the capacity and not below its floor, as far as the refill filled them to that; a
-- critical request is admitted and draws nothing.
pub take_reserve :
    (b : BroadcastBudget) (class : TrafficClass) (now : ℕ) (s : Tunables)
    → 0 < s.refill_interval
    → b.last_refill ≤ now
    → now ≤ u64_max
    → let r = refill b now s.capacity s.refill_interval in
      let (c, answer) = take b class now s in
      (c.tokens ≤ s.capacity)
      × (min (floor class s) r.tokens ≤ c.tokens)
      × (class ≡ TrafficClass.critical → (answer ≡ BroadcastAdmission.admit) × (c ≡ r))
unfolding take
take_reserve b TrafficClass.critical now s pos le top = (
  (refill-Refilled b now s.capacity s.refill_interval pos le top).within,
  ground arith,
  λ _. (refl, refl),
)
take_reserve b TrafficClass.host now s pos le top =
    let kept =
      draw_keeps (refill b now s.capacity s.refill_interval) (floor TrafficClass.host s)
        s.refill_interval in
    (
      omega (arith, kept.1, (refill-Refilled b now s.capacity s.refill_interval pos le top).within),
      kept.0,
      λ e. absurd (ground (arith, e)),
    )
take_reserve b TrafficClass.forwarding now s pos le top =
    let kept =
      draw_keeps (refill b now s.capacity s.refill_interval) (floor TrafficClass.forwarding s)
        s.refill_interval in
    (
      omega (arith, kept.1, (refill-Refilled b now s.capacity s.refill_interval pos le top).within),
      kept.0,
      λ e. absurd (ground (arith, e)),
    )

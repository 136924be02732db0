-- ===== src/Driver/BroadcastBudget/Retry.antt =====
-- A request that was deferred, tried again.
use ziggurat.Base.{ℕ, ◌≡◌, ◌≤◌, ◌<◌, ◌↔◌, ◌+◌, ◌-◌, ◌*◌, ◌/◌, min, u64_max, arith}
use ziggurat.Time.{saturating_mul, duration_max, saturating_duration_since}
use ziggurat.Driver.BroadcastBudget.{
  BroadcastBudget, BroadcastAdmission, TrafficClass, Tunables, floor, refill, draw, take,
}
use ziggurat.Driver.BroadcastBudget.Bounds.{refill-Refilled, mult_mono, swap}

refill-tokens :
    (b : BroadcastBudget) (now capacity interval : ℕ)
    → 0 < interval
    → (refill b now capacity interval).tokens
      ≡ min capacity (b.tokens + (now - b.last_refill) / interval)
unfolding refill saturating_duration_since
refill-tokens b now capacity interval pos = ground arith

-- A quotient reaches `d` exactly where the dividend reaches `d` divisors.
div_reaches : (a i d : ℕ) → 0 < i → (d ≤ a / i) ↔ (d * i ≤ a)
div_reaches a i d pos = (λ h. grind arith, λ h. grind arith)

-- The budget after a request was deferred, and the wait that it was told.
abbrev pub Deferred : BroadcastBudget → TrafficClass → ℕ → Tunables → BroadcastBudget → ℕ → Type 0
Deferred b class now s c wait = take b class now s ≡ (c, BroadcastAdmission.defer wait)

draw_deferred :
    (b c : BroadcastBudget) (level interval wait : ℕ)
    → draw b level interval ≡ (c, BroadcastAdmission.defer wait)
    → (c ≡ b) × (b.tokens ≤ level) × (wait ≡ saturating_mul interval (level + 1 - b.tokens))
unfolding draw
draw_deferred b c level interval wait e = ground (arith, e)

draw_admits :
    (b : BroadcastBudget) (level interval : ℕ)
    → ((draw b level interval).1 ≡ BroadcastAdmission.admit) ↔ (level < b.tokens)
unfolding draw
draw_admits b level interval = (λ e. ground (arith, e), λ h. ground arith)

module _ (s : Tunables) (level : ℕ) (pos : 0 < s.refill_interval) (room : level < s.capacity)
    (short : s.refill_interval * (level + 1) ≤ duration_max) where
  draw_retry :
      (c : BroadcastBudget) (after : ℕ)
      → c.tokens ≤ level
      → c.last_refill ≤ after
      → ((draw (refill c after s.capacity s.refill_interval) level s.refill_interval).1
          ≡ BroadcastAdmission.admit)
        ↔ (c.last_refill + saturating_mul s.refill_interval (level + 1 - c.tokens) ≤ after)
  unfolding saturating_mul
  draw_retry c after low le =
      let missing = level + 1 - c.tokens in
      let i = s.refill_interval in
      let reach = div_reaches (after - c.last_refill) i missing pos in
      let tokens = refill-tokens c after s.capacity i pos in
      let admits = draw_admits (refill c after s.capacity i) level i in
      let below = mult_mono missing (level + 1) i (omega arith) in
      let fits : i * missing ≤ duration_max =
        omega (arith, below, swap i missing, swap i (level + 1), short) in
      (
        λ e.
            let high = admits.0 e in
            let d : missing ≤ (after - c.last_refill) / i = omega (arith, tokens, high) in
            ground (arith, reach.0 d, fits, swap i missing, le),
        λ h.
            let far : missing * i ≤ after - c.last_refill =
              ground (arith, h, fits, swap i missing, le) in
            admits.1 (omega (arith, tokens, reach.1 far, room, low)),
      )

  retry :
      (b c : BroadcastBudget) (now after wait : ℕ)
      → b.last_refill ≤ now
      → now ≤ after
      → now ≤ u64_max
      → draw (refill b now s.capacity s.refill_interval) level s.refill_interval
        ≡ (c, BroadcastAdmission.defer wait)
      → (c.last_refill ≤ now)
        × (((draw (refill c after s.capacity s.refill_interval) level s.refill_interval).1
              ≡ BroadcastAdmission.admit)
            ↔ (c.last_refill + wait ≤ after))
  retry b c now after wait le later top e =
      let (same, low, told) =
        draw_deferred (refill b now s.capacity s.refill_interval) c level s.refill_interval wait
          e in
      let r = refill-Refilled b now s.capacity s.refill_interval pos le top in
      let here : c.last_refill ≤ now = rw same r.not_ahead in
      let tokens : c.tokens ≤ level = rw same low in
      let wait_c : wait ≡ saturating_mul s.refill_interval (level + 1 - c.tokens) = rw same told in
      (here, rw wait_c (draw_retry c after tokens (omega (arith, here, later))))

-- With a positive refill interval, a floor below the capacity and waits within the range of a
-- duration: after a request was deferred at a time not before the last refill, the same request at
-- any later time is admitted exactly if the told wait has passed since the last refill, which is
-- not after the deferred request.
pub take_retry :
    (b c : BroadcastBudget) (class : TrafficClass) (now after wait : ℕ) (s : Tunables)
    → 0 < s.refill_interval
    → floor class s < s.capacity
    → s.refill_interval * (floor class s + 1) ≤ duration_max
    → b.last_refill ≤ now
    → now ≤ after
    → now ≤ u64_max
    → Deferred b class now s c wait
    → (c.last_refill ≤ now)
      × (((take c class after s).1 ≡ BroadcastAdmission.admit) ↔ (c.last_refill + wait ≤ after))
unfolding take
take_retry b c TrafficClass.critical now after wait s pos room short le later top e =
    absurd (ground (arith, e))
take_retry b c TrafficClass.host now after wait s pos room short le later top e =
    retry s (floor TrafficClass.host s) pos room short b c now after wait le later top e
take_retry b c TrafficClass.forwarding now after wait s pos room short le later top e =
    retry s (floor TrafficClass.forwarding s) pos room short b c now after wait le later top e

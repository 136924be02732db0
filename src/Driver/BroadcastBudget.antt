-- ===== src/Driver/BroadcastBudget.antt =====
-- crates/ziggurat-driver/src/broadcast_budget.rs: the admission of broadcasts by a token bucket.
-- The refill interval is a whole number of microseconds.
pub mod Bounds
pub mod Rate
pub mod Retry
use ziggurat.Base.{
  ℕ, ◌+◌, ◌-◌, ◌*◌, ◌/◌, Bool, true, false, List, [], ◌∷◌, if◌then◌else◌, ◌==◌, leb, ltb, min,
}
use ziggurat.Time.{later, saturating_duration_since, saturating_mul}

pub data TrafficClass : Type 0 where
  host forwarding critical : TrafficClass

pub data BroadcastAdmission : Type 0 where
  admit : BroadcastAdmission
  defer : ℕ → BroadcastAdmission

pub record BroadcastBudget : Type 0 where
  pub tokens : ℕ
  pub last_refill : ℕ

unfoldable pub new : ℕ → BroadcastBudget
new initial_tokens = record { tokens = initial_tokens; last_refill = 0 }

-- `capacity`, `refill_interval` and the two reserves, as the caller reads them from the tunables.
pub record Tunables : Type 0 where
  pub capacity : ℕ
  pub refill_interval : ℕ
  pub critical_reserve : ℕ
  pub forwarding_reserve : ℕ

abbrev pub floor : TrafficClass → Tunables → ℕ
floor TrafficClass.critical s = 0
floor TrafficClass.forwarding s = s.critical_reserve
floor TrafficClass.host s = s.critical_reserve + s.forwarding_reserve

abbrev pub full : ℕ → ℕ → BroadcastBudget
full capacity now = record { tokens = capacity; last_refill = now }

unfoldable pub refill : BroadcastBudget → ℕ → ℕ → ℕ → BroadcastBudget
refill b now capacity interval =
    if interval == 0
    then full capacity now
    else (if leb capacity b.tokens
        then full capacity now
        else (let accrued = saturating_duration_since now b.last_refill / interval in
            if accrued == 0
            then b
            else (let added = min accrued (capacity - b.tokens) in
                if leb capacity (b.tokens + added) then full capacity now else record {
                  tokens = b.tokens + added;
                  last_refill = later b.last_refill (saturating_mul interval added);
                })))

-- The part of `take` behind the bypass of critical broadcasts.
unfoldable pub draw : BroadcastBudget → ℕ → ℕ → BroadcastBudget × BroadcastAdmission
draw b floor interval =
    if ltb floor b.tokens
    then (record b { tokens = b.tokens - 1 }, BroadcastAdmission.admit)
    else (b, BroadcastAdmission.defer (saturating_mul interval (floor + 1 - b.tokens)))

unfoldable pub take :
    BroadcastBudget → TrafficClass → ℕ → Tunables → BroadcastBudget × BroadcastAdmission
take b TrafficClass.critical now s =
    (refill b now s.capacity s.refill_interval, BroadcastAdmission.admit)
take b class now s =
    draw (refill b now s.capacity s.refill_interval) (floor class s) s.refill_interval

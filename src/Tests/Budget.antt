-- ===== src/Tests/Budget.antt =====
-- Inputs for the theorems on the broadcast budget.
use ziggurat.Base.{◌≡◌, ◌≤◌, ◌↔◌, refl, ◌+◌, ◌*◌, List, [], ◌∷◌, min, arith}
use ziggurat.Time
use ziggurat.Driver.BroadcastBudget
use ziggurat.Driver.BroadcastBudget.{
  BroadcastBudget, BroadcastAdmission, TrafficClass, Tunables, floor, refill, take,
}
use ziggurat.Driver.BroadcastBudget.Bounds.{take_reserve}
use ziggurat.Driver.BroadcastBudget.Rate.{Request, take_all, drawn, take_all_rate}
use ziggurat.Driver.BroadcastBudget.Retry.{take_retry}

abbrev tunables : Tunables
tunables = record {
  capacity = 9;
  refill_interval = 1000;
  critical_reserve = 2;
  forwarding_reserve = 1;
}

abbrev low : BroadcastBudget
low = record { tokens = 3; last_refill = 500 }

take_reserve_example :
    ((take low TrafficClass.host 700 tunables).0.tokens ≤ 9)
    × (min 3 (refill low 700 9 1000).tokens ≤ (take low TrafficClass.host 700 tunables).0.tokens)
    × (TrafficClass.host ≡ TrafficClass.critical
        → ((take low TrafficClass.host 700 tunables).1 ≡ BroadcastAdmission.admit)
          × ((take low TrafficClass.host 700 tunables).0 ≡ refill low 700 9 1000))
take_reserve_example =
    take_reserve low TrafficClass.host 700 tunables (omega arith) (omega arith) (omega arith)

abbrev requests : List Request
requests =
    record { class = TrafficClass.forwarding; now = 700 }
    ∷ record { class = TrafficClass.host; now = 1600 }
    ∷ record { class = TrafficClass.critical; now = 1700 }
    ∷ []

take_all_rate_example :
    ((take_all tunables low requests).0.last_refill ≤ 1700)
    × (drawn (take_all tunables low requests).1 * 1000
          + (take_all tunables low requests).0.tokens * 1000
          + 500
        ≤ 3 * 1000 + (take_all tunables low requests).0.last_refill)
take_all_rate_example =
    take_all_rate tunables (omega arith) low 600 requests (omega arith) (ground arith)

-- The token is there 800 microseconds later, not 1000.
waits : take low TrafficClass.host 700 tunables ≡ (low, BroadcastAdmission.defer 1000)
unfolding take BroadcastBudget.draw refill Time.saturating_mul Time.saturating_duration_since
waits = refl

take_retry_example :
    (500 ≤ 700)
    × (((take low TrafficClass.host 1500 tunables).1 ≡ BroadcastAdmission.admit)
        ↔ (500 + 1000 ≤ 1500))
take_retry_example =
    take_retry low low TrafficClass.host 700 1500 1000 tunables (omega arith) (omega arith)
      (omega arith) (omega arith) (omega arith) (omega arith) waits

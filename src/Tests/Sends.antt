-- ===== src/Tests/Sends.antt =====
-- Inputs for the theorems on the send tables: a unicast and two broadcasts, with numbers for the frames
-- and the waiters.
use ziggurat.Base.{
  ℕ, ◌+◌, ◌<◌, ◌≤◌, ◌⊎◌, ◌≡◌, refl, false, ok, none, some, List, [], ◌∷◌, arith, Result, Option,
}
use ziggurat.Base.Order.{nat_ord}
use ziggurat.Types.{Nwk}
use ziggurat.Time.{later}
use ziggurat.FlatMap
use ziggurat.FlatMap.{get}
use ziggurat.Sends.{
  Address, TxPriority, SendFailure, Confirm, Transmit, InFlight, Action, Tunables, rank,
  max_by_priority, max_from, earliest,
}
use ziggurat.FlatMap.StaysSorted.{new-IsSorted, insert-IsSorted}
use ziggurat.Sends.Candidates.{ready_priority}
use ziggurat.Sends.Ledger.{settled_weight}
use ziggurat.Sends.Front
use ziggurat.Sends.Settling
use ziggurat.Sends.Front.{Sends, best}
use ziggurat.Sends.Unicasts
use ziggurat.Sends.Unrouted
use ziggurat.Sends.Broadcasts
use ziggurat.Sends.Broadcasts.{Schedule}
use ziggurat.Sends.World.{World, Event, step, History}
use ziggurat.Sends.World.Valid.{waiting}
use ziggurat.Sends.World.Histories.{admitted_all, no_panic, settled_once}
use ziggurat.Sends.Waking.{tick_idle}
use ziggurat.Sends.Deadlines.{IsCurrent, tick_strands_none}
use ziggurat.Sends.Order.{Candidate, best_order}

abbrev waits : Tunables
waits = record {
  transaction_persistence_time = 7000;
  unicast_retries = 3;
  pending_route_discovery_attempts = 2;
  handoff_timeout = 500;
}

abbrev same : SendFailure → SendFailure
same f = f

-- Every destination is one hop away.
abbrev direct : ℕ → ℕ × Result (Nwk × Option Address) SendFailure
direct frame = (frame, ok (9, none))

abbrev unicast : Unicasts.Unicast ℕ ℕ
unicast = record {
  frame = 50;
  priority = TxPriority.user_normal;
  waiter = 7;
  confirm = Confirm.on_handoff;
  next_hop = 9;
  poll_address = none;
}

abbrev broadcast : Broadcasts.Broadcast ℕ ℕ
broadcast = record {
  frame = 60;
  priority = TxPriority.user_high;
  waiter = 8;
  schedule = Schedule.once;
}

abbrev enqueued : World ℕ ℕ SendFailure
enqueued = record {
  sends = (Front.enqueue_unicast (Front.default {E = SendFailure}) unicast 10 waits).0;
  lent = [];
}

abbrev loan : InFlight ℕ
loan = record { id = 0; frame = 50; transmit = Transmit.unicast 9 false }

abbrev lent_out : World ℕ ℕ SendFailure
lent_out = record {
  sends =
      Front.with_unicasts enqueued.sends (FlatMap.modify enqueued.sends.unicasts 0 Unicasts.lend);
  lent = loan ∷ [];
}

abbrev reported : Event ℕ ℕ SendFailure
reported = Event.transmitted [] loan [] (ok tt) 20 5 5

abbrev delivered : World ℕ ℕ SendFailure
delivered = record {
  sends =
      Front.with_unicasts lent_out.sends
        (FlatMap.remove (FlatMap.modify lent_out.sends.unicasts 0 (Unicasts.give_back 50)) 0).0;
  lent = [];
}

abbrev sent : List (Action ℕ ℕ SendFailure)
sent = Action.settled 7 (ok tt) 50 none ∷ []

dequeued :
    History same direct waits lent_out (Event.dequeue 12 ∷ Event.enqueue_unicast unicast 10 ∷ []) []
unfolding Front.default Front.enqueue_unicast Unicasts.enqueue FlatMap.new FlatMap.insert
    FlatMap.modify FlatMap.get FlatMap.index_of FlatMap.search step Front.dequeue Front.dequeue_from
    best Unicasts.best_queued Broadcasts.best_queued Unicasts.ready max_by_priority max_from later
    Unicasts.dequeue Unicasts.more_pending
dequeued =
    History.next (History.next History.begin (Event.enqueue_unicast unicast 10) (ground arith) refl)
      (Event.dequeue 12) tt refl

finished :
    History same direct waits delivered
      (reported ∷ Event.dequeue 12 ∷ Event.enqueue_unicast unicast 10 ∷ [])
      sent
unfolding Front.default Front.enqueue_unicast Unicasts.enqueue FlatMap.new FlatMap.insert
    FlatMap.modify FlatMap.get FlatMap.index_of FlatMap.search FlatMap.remove step Front.transmitted
    Front.report_of Unicasts.transmitted Unicasts.outcome Unicasts.hand_off Unicasts.settle
    Unicasts.report FlatMap.modify_at
finished = History.next dequeued reported refl refl

no_panic_example :
    (v : World ℕ ℕ SendFailure) × (more : List (Action ℕ ℕ SendFailure)) × (step same direct waits
        lent_out reported
      ≡ some (v, more))
no_panic_example = no_panic same direct waits dequeued reported refl

settled_once_example :
    admitted_all (λ w. w) (reported ∷ Event.dequeue 12 ∷ Event.enqueue_unicast unicast 10 ∷ [])
    ≡ waiting (λ w. w) delivered.sends + settled_weight (λ w. w) sent
settled_once_example = settled_once same direct waits finished (λ w. w)

-- Both tables hold a send, and the broadcast comes first.
abbrev both : Sends ℕ ℕ SendFailure
both = (Front.enqueue_broadcast enqueued.sends broadcast 11 waits).0

tick_idle_example : Settling.tick same both 12 ≡ some (both, [])
unfolding Front.default Front.enqueue_unicast Unicasts.enqueue FlatMap.new FlatMap.insert
    Front.enqueue_broadcast Broadcasts.enqueue FlatMap.index_of FlatMap.search Front.next_wake
    Unicasts.next_wake Broadcasts.next_wake earliest Unicasts.next_wake_of Broadcasts.next_wake_of
    later FlatMap.values Unrouted.default Unrouted.next_wake
tick_idle_example = tick_idle same 12 both (λ a e. ground arith)

best_order_example :
    (z : Candidate) × (best both 12 ≡ some z)
    × (ready_priority both 12 z.1 z.0.0 ≡ some z.0.1)
    × ((rank TxPriority.user_high < rank z.0.1)
        ⊎ ((rank TxPriority.user_high ≡ rank z.0.1) × (z.0.0 ≤ 1)))
unfolding Front.default Front.enqueue_unicast Unicasts.enqueue FlatMap.new FlatMap.insert
    Front.enqueue_broadcast Broadcasts.enqueue FlatMap.get FlatMap.index_of FlatMap.search
    Broadcasts.ready later
best_order_example =
    best_order both 12 false 1
      (insert-IsSorted {K = ℕ} {V = Unicasts.Record ℕ ℕ} FlatMap.new 0
        (Unicasts.new_record unicast 10 none none waits) (new-IsSorted ℕ (Unicasts.Record ℕ ℕ)))
      (insert-IsSorted {K = ℕ} {V = Broadcasts.Record ℕ ℕ SendFailure} FlatMap.new 1
        (Broadcasts.new_record broadcast 11 waits)
        (new-IsSorted ℕ (Broadcasts.Record ℕ ℕ SendFailure)))
      refl

tick_strands_none_example :
    (v : World ℕ ℕ SendFailure) × (more : List (Action ℕ ℕ SendFailure)) × (step same direct waits
        lent_out
        (Event.tick 600)
      ≡ some (v, more))
    × IsCurrent 600 v.sends
tick_strands_none_example = tick_strands_none same direct waits dequeued 600

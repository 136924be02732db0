-- ===== src/Sends/Unrouted.antt =====
-- crates/ziggurat-zigbee/src/sends/unrouted.rs: unicasts with no route yet, held until the discovery
-- of their destination ends.
pub mod Books
use mathlib.Core.Option
use ziggurat.Base.{
  ℕ, ◌-◌, ◌≡◌, Bool, true, false, ◌&&◌, ◌||◌, not, Option, none, some, List, [], ◌∷◌, ◌++◌, map,
  if◌then◌else◌, Result, ok, err, leb, ◌==◌, any,
}
use ziggurat.Base.Order.{nat_ord}
use ziggurat.Types.{Nwk}
use ziggurat.Time.{later}
use ziggurat.FlatMap
use ziggurat.FlatMap.{FlatMap, values}
use ziggurat.FlatMap.Drain.{collect, drain}
use ziggurat.Sends.{TxPriority, SendFailure, Confirm, Action, Tunables, earliest}

-- What an unrouted unicast is enqueued with.
pub record UnroutedUnicast (F W : Type 0) : Type 0 where
  pub frame : F
  pub priority : TxPriority
  pub waiter : W
  pub confirm : Confirm
  pub destination : Nwk

pub record Record (F W : Type 0) : Type 0 where
  pub frame : F
  pub priority : TxPriority
  pub waiter : W
  pub confirm : Confirm
  pub destination : Nwk
  pub deadline : ℕ

pub record UnroutedUnicasts (F W : Type 0) : Type 0 where
  pub records : FlatMap ℕ (Record F W)
  pub retries : FlatMap Nwk ℕ

module _ {F W : Type 0} where
  unfoldable pub default : UnroutedUnicasts F W
  default = record { records = FlatMap.new; retries = FlatMap.new }

  unfoldable pub has_unrouted : UnroutedUnicasts F W → Nwk → Bool
  has_unrouted u destination = FlatMap.contains_key u.retries destination

  abbrev pub new_record : UnroutedUnicast F W → ℕ → Tunables → Record F W
  new_record send now t = record {
    frame = send.frame;
    priority = send.priority;
    waiter = send.waiter;
    confirm = send.confirm;
    destination = send.destination;
    deadline = later now t.handoff_timeout;
  }

  pub enqueue : UnroutedUnicasts F W → ℕ → UnroutedUnicast F W → ℕ → Tunables → UnroutedUnicasts F W
  enqueue u id send now t = record {
    records = (FlatMap.insert u.records id (new_record send now t)).0;
    retries =
        if FlatMap.contains_key u.retries send.destination
        then u.retries
        else (FlatMap.insert u.retries send.destination (t.pending_route_discovery_attempts - 1)).0;
  }

  pub destinations : UnroutedUnicasts F W → List Nwk
  destinations u = map (λ e. e.0) u.retries.entries

  abbrev pub is_toward : Nwk → Record F W → Bool
  is_toward destination r = r.destination == destination

  abbrev pub toward : Nwk → ℕ → Record F W → Option (Unit {0})
  toward destination id r = if is_toward destination r then some tt else none

  abbrev pub taken : ℕ → Record F W → Unit {0} → Option (List (ℕ × Record F W))
  taken id r u = some ((id, r) ∷ [])

  unfoldable pub take :
      FlatMap ℕ (Record F W) → Nwk → Option (FlatMap ℕ (Record F W) × List (ℕ × Record F W))
  take m destination = drain taken (collect (toward destination) m.entries) m

  unfoldable pub route :
      UnroutedUnicasts F W → Nwk → Option (UnroutedUnicasts F W × List (ℕ × Record F W))
  route u destination =
      Option.map
        (λ x. (record { records = x.0; retries = (FlatMap.remove u.retries destination).0 }, x.1))
        (take u.records destination)

  -- The panic is that of a destination with no discovery.
  unfoldable pub retry_discovery : UnroutedUnicasts F W → Nwk → Option (UnroutedUnicasts F W × Bool)
  retry_discovery u destination = elim (FlatMap.get u.retries destination) [
    | none ↦ none
    | some retries ↦
        if retries == 0 || not (any (is_toward destination) (values u.records))
        then some (u, false)
        else some (record u { retries = FlatMap.modify u.retries destination (λ n. n - 1) }, true)
  ]

  abbrev pub lapsed : ℕ → ℕ → Record F W → Option (Unit {0})
  lapsed now id r = if leb r.deadline now then some tt else none

  -- The loop over `pop_first`.
  unfoldable pub abandon : UnroutedUnicasts F W → List W × UnroutedUnicasts F W
  abandon u = (map (λ r. r.waiter) (values u.records), default)

  unfoldable pub next_wake : UnroutedUnicasts F W → Option ℕ
  next_wake u = earliest (map (λ r. some r.deadline) (values u.records))

-- `from` makes the driver's error of a failure.
module _ {F W E : Type 0} (from : SendFailure → E) where
  pub settled_with : Record F W → SendFailure → Action F W E
  settled_with r failure = Action.settled r.waiter (err (from failure)) r.frame none

  unfoldable pub fail :
      UnroutedUnicasts F W → Nwk → Option (UnroutedUnicasts F W × List (Action F W E))
  fail u destination =
      Option.map (λ x. (x.0, map (λ e. settled_with e.1 SendFailure.route_discovery_timeout) x.1))
        (route u destination)

  unfoldable pub cancel :
      UnroutedUnicasts F W → ℕ → Option (UnroutedUnicasts F W × List (Action F W E))
  cancel u id = elim (FlatMap.remove u.records id).1 [
    | none ↦ none
    | some r ↦ some (
      record u { records = (FlatMap.remove u.records id).0 },
      settled_with r SendFailure.cancelled ∷ [],
    )
  ]

  abbrev pub lapse : ℕ → Record F W → Unit {0} → Option (List (Action F W E))
  lapse id r u = some (settled_with r SendFailure.handoff_timeout ∷ [])

  unfoldable pub tick :
      UnroutedUnicasts F W → ℕ → Option (UnroutedUnicasts F W × List (Action F W E))
  tick u now =
      Option.map (λ x. (record u { records = x.0 }, x.1))
        (drain lapse (collect (lapsed now) u.records.entries) u.records)

-- ===== src/Sends/Front.antt =====
-- crates/ziggurat-zigbee/src/sends/mod.rs: `Sends`, the three tables behind one id space. An id is a
-- `u32` that wraps, and a panic is `none`.
use mathlib.Core.Option
use ziggurat.Base.{ℕ, ◌+◌, ◌%◌, ◌^◌, Bool, true, false, Option, none, some, List, [], ◌∷◌, ◌++◌}
use ziggurat.Base.Order.{nat_ord}
use ziggurat.Types.{Nwk, Eui64}
use ziggurat.FlatMap
use ziggurat.FlatMap.{FlatMap}
use ziggurat.Sends.{
  Address, TxPriority, ApsAckData, Transmit, InFlight, Verdict, Action, SrcMatchTable, Tunables,
  max_by_priority, earliest,
}
use ziggurat.Sends.Unicasts
use ziggurat.Sends.Unicasts.{Unicasts, Unicast}
use ziggurat.Sends.Broadcasts
use ziggurat.Sends.Broadcasts.{Broadcasts, Broadcast}
use ziggurat.Sends.Unrouted
use ziggurat.Sends.Unrouted.{UnroutedUnicasts, UnroutedUnicast}

pub record Sends (F W E : Type 0) : Type 0 where
  pub next_id : ℕ
  pub unicasts : Unicasts F W
  pub unrouted_unicasts : UnroutedUnicasts F W
  pub broadcasts : Broadcasts F W E

-- `self.next_id += 1` on a `u32`.
abbrev pub next_id_of : ℕ → ℕ
next_id_of id = (id + 1) % 2 ^ 32

-- `[unicast, broadcast].into_iter().flatten()`, each with the table that it comes from.
abbrev pub tagged : Bool → Option (ℕ × TxPriority) → List ((ℕ × TxPriority) × Bool)
tagged from_unicasts none = []
tagged from_unicasts (some best) = (best, from_unicasts) ∷ []

module _ {F W E : Type 0} where
  unfoldable pub default : Sends F W E
  default = record {
    next_id = 0;
    unicasts = FlatMap.new;
    unrouted_unicasts = Unrouted.default;
    broadcasts = FlatMap.new;
  }

  abbrev pub with_unicasts : Sends F W E → Unicasts F W → Sends F W E
  with_unicasts s m = record s { unicasts = m }

  abbrev pub with_unrouted : Sends F W E → UnroutedUnicasts F W → Sends F W E
  with_unrouted s u = record s { unrouted_unicasts = u }

  abbrev pub with_broadcasts : Sends F W E → Broadcasts F W E → Sends F W E
  with_broadcasts s m = record s { broadcasts = m }

  -- The new table and the id of the send; there are no actions.
  unfoldable pub enqueue_unicast : Sends F W E → Unicast F W → ℕ → Tunables → Sends F W E × ℕ
  enqueue_unicast s u now t = (
    record s {
      next_id = next_id_of s.next_id;
      unicasts = Unicasts.enqueue s.unicasts s.next_id u now none none t;
    },
    s.next_id,
  )

  unfoldable pub enqueue_broadcast_copy :
      Sends F W E → ℕ → Unicast F W → ℕ → Tunables → Sends F W E × ℕ
  enqueue_broadcast_copy s broadcast u now t = (
    record s {
      next_id = next_id_of s.next_id;
      unicasts = Unicasts.enqueue s.unicasts s.next_id u now none (some broadcast) t;
    },
    s.next_id,
  )

  unfoldable pub enqueue_unrouted_unicast :
      Sends F W E → UnroutedUnicast F W → ℕ → Tunables → Sends F W E × ℕ
  enqueue_unrouted_unicast s send now t = (
    record s {
      next_id = next_id_of s.next_id;
      unrouted_unicasts = Unrouted.enqueue s.unrouted_unicasts s.next_id send now t;
    },
    s.next_id,
  )

  unfoldable pub enqueue_broadcast : Sends F W E → Broadcast F W → ℕ → Tunables → Sends F W E × ℕ
  enqueue_broadcast s b now t = (
    record s {
      next_id = next_id_of s.next_id;
      broadcasts = Broadcasts.enqueue s.broadcasts s.next_id b now t;
    },
    s.next_id,
  )

  unfoldable pub best : Sends F W E → ℕ → Option ((ℕ × TxPriority) × Bool)
  best s now =
      max_by_priority (λ c. c.0)
        (tagged true (Unicasts.best_queued s.unicasts now)
          ++ tagged false (Broadcasts.best_queued s.broadcasts now))

  unfoldable pub dequeue_from : Sends F W E → ℕ → Bool → Option (InFlight F × Sends F W E)
  dequeue_from s id true =
      Option.map (λ x. (x.0, with_unicasts s x.1)) (Unicasts.dequeue s.unicasts id)
  dequeue_from s id false =
      Option.map (λ x. (x.0, with_broadcasts s x.1)) (Broadcasts.dequeue s.broadcasts id)

  -- `some none` where nothing is ready.
  unfoldable pub dequeue : Sends F W E → ℕ → Option (Option (InFlight F × Sends F W E))
  dequeue s now = elim (best s now) [
    | none ↦ some none
    | some c ↦ Option.map some (dequeue_from s c.0.0 c.1)
  ]

  unfoldable pub report_of :
      Sends F W E
      → ℕ
      → F
      → Verdict E
      → ℕ
      → ℕ
      → ℕ
      → Transmit
      → Option (Sends F W E × List (Action F W E))
  report_of s id frame result now retry_delay passive_ack_interval (Transmit.unicast hop pending) =
      Option.map (λ x. (with_unicasts s x.0, x.1))
        (Unicasts.transmitted s.unicasts id frame result now retry_delay)
  report_of s id frame result now retry_delay passive_ack_interval Transmit.broadcast =
      Option.map (λ x. (with_broadcasts s x.0, x.1))
        (Broadcasts.transmitted s.broadcasts id frame result now passive_ack_interval)

  unfoldable pub transmitted :
      Sends F W E → InFlight F → Verdict E → ℕ → ℕ → ℕ → Option (Sends F W E × List (Action F W E))
  transmitted s lent result now retry_delay passive_ack_interval =
      report_of s lent.id lent.frame result now retry_delay passive_ack_interval lent.transmit

  unfoldable pub poll : Sends F W E → Option Eui64 → Option Nwk → ℕ → Sends F W E × Bool
  poll s eui64 nwk now =
      let (m, queued) = Unicasts.poll s.unicasts eui64 nwk now in (with_unicasts s m, queued)

  unfoldable pub aps_ack_received :
      Sends F W E → ApsAckData → Option (Sends F W E × List (Action F W E))
  aps_ack_received s ack =
      Option.map (λ x. (with_unicasts s x.0, x.1)) (Unicasts.ack_received s.unicasts ack)

  pub unrouted_destinations : Sends F W E → List Nwk
  unrouted_destinations s = Unrouted.destinations s.unrouted_unicasts

  unfoldable pub has_unrouted : Sends F W E → Nwk → Bool
  has_unrouted s destination = Unrouted.has_unrouted s.unrouted_unicasts destination

  unfoldable pub retry_discovery : Sends F W E → Nwk → Option (Sends F W E × Bool)
  retry_discovery s destination =
      Option.map (λ x. (with_unrouted s x.0, x.1))
        (Unrouted.retry_discovery s.unrouted_unicasts destination)

  pub broadcasts_awaiting_quorum : Sends F W E → List (Nwk × ℕ)
  broadcasts_awaiting_quorum s = Broadcasts.awaiting_quorum s.broadcasts

  unfoldable pub broadcast_delivered :
      Sends F W E → Nwk × ℕ → Option (Sends F W E × List (Action F W E))
  broadcast_delivered s key =
      Option.map (λ x. (with_broadcasts s x.0, x.1)) (Broadcasts.delivered s.broadcasts key)

  -- The waiters of all live sends, and the empty tables.
  pub abandon : Sends F W E → List W × Sends F W E
  abandon s =
      let (a, unicasts) = Unicasts.abandon s.unicasts in
      let (b, unrouted) = Unrouted.abandon s.unrouted_unicasts in
      let (c, broadcasts) = Broadcasts.abandon s.broadcasts in
      (
        a ++ b ++ c,
        record s { unicasts = unicasts; unrouted_unicasts = unrouted; broadcasts = broadcasts },
      )

  unfoldable pub next_wake : Sends F W E → Option ℕ
  next_wake s = earliest (
      Unicasts.next_wake s.unicasts
      ∷ Unrouted.next_wake s.unrouted_unicasts
      ∷ Broadcasts.next_wake s.broadcasts
      ∷ [])

  pub poll_addresses : Sends F W E → FlatMap Eui64 Nwk → SrcMatchTable
  poll_addresses s known = Unicasts.poll_addresses s.unicasts known

  pub has_unicast_awaiting_poll : Sends F W E → Address → Bool
  has_unicast_awaiting_poll s address = Unicasts.has_awaiting_poll s.unicasts address

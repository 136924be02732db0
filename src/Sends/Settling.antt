-- ===== src/Sends/Settling.antt =====
-- crates/ziggurat-zigbee/src/sends/mod.rs: the calls of `Sends` that route, fail or cancel sends, and
-- the timer pass.
use mathlib.Core.Option
use ziggurat.Base.{
  ℕ, Bool, true, false, Option, none, some, List, [], ◌∷◌, ◌++◌, if◌then◌else◌, Result, ok, err,
}
use ziggurat.Base.Order.{nat_ord}
use ziggurat.Types.{Nwk, Eui64}
use ziggurat.FlatMap
use ziggurat.FlatMap.{FlatMap}
use ziggurat.FlatMap.Drain.{drain}
use ziggurat.Sends.{Address, SendFailure, Action, Tunables}
use ziggurat.Sends.Unicasts
use ziggurat.Sends.Unicasts.{Unicasts, Unicast}
use ziggurat.Sends.Broadcasts
use ziggurat.Sends.Broadcasts.{Broadcasts, Broadcast}
use ziggurat.Sends.Unrouted
use ziggurat.Sends.Unrouted.{UnroutedUnicasts, UnroutedUnicast}
use ziggurat.Sends.Front.{Sends, with_unicasts, with_unrouted}

-- `copies.iter().any(|copy| self.unicasts.is_transmitting(*copy))`.
unfoldable pub any_lent : {F W : Type 0} → Unicasts F W → List (ℕ × Unit {0}) → Option Bool
any_lent m [] = some false
any_lent m ((id, u) ∷ copies) =
    let rest = any_lent m copies in
    elim (Unicasts.is_transmitting m id) [ none ↦ none | some true ↦ some true | some false ↦ rest ]

-- `resolve` is the driver's: it may rewrite the frame, and finds a next hop and the address the device
-- polls under, or fails the send.
module _ {F W E : Type 0} (resolve : F → F × Result (Nwk × Option Address) E) where
  unfoldable pub routed_by :
      ℕ
      → Unrouted.Record F W
      → F × Result (Nwk × Option Address) E
      → ℕ
      → Tunables
      → Unicasts F W
      → Unicasts F W × List (Action F W E)
  routed_by id r (frame, ok (next_hop, poll_address)) now t m = (
    Unicasts.enqueue m id
        (record {
          frame = frame;
          priority = r.priority;
          waiter = r.waiter;
          confirm = r.confirm;
          next_hop = next_hop;
          poll_address = poll_address;
        })
        now (some r.deadline) none t,
    [],
  )
  routed_by id r (frame, err e) now t m = (m, Action.settled r.waiter (err e) frame none ∷ [])

  unfoldable pub route_each :
      List (ℕ × Unrouted.Record F W)
      → ℕ
      → Tunables
      → Unicasts F W
      → Unicasts F W × List (Action F W E)
  route_each [] now t m = (m, [])
  route_each ((id, r) ∷ rs) now t m =
      let (moved, a) = routed_by id r (resolve r.frame) now t m in
      let (rest, b) = route_each rs now t moved in (rest, a ++ b)

  unfoldable pub route_unicasts :
      (SendFailure → E)
      → Sends F W E
      → Nwk
      → ℕ
      → Tunables
      → Option (Sends F W E × List (Action F W E))
  route_unicasts from s destination now t = elim (Unrouted.tick from s.unrouted_unicasts now) [
    | none ↦ none
    | some (live, a) ↦ elim (Unrouted.route live destination) [
      | none ↦ none
      | some (held, taken) ↦ some (
        record s { unicasts = (route_each taken now t s.unicasts).0; unrouted_unicasts = held },
        a ++ (route_each taken now t s.unicasts).1,
      )
    ]
  ]

-- `from` makes the driver's error of a failure.
module _ {F W E : Type 0} (from : SendFailure → E) where
  unfoldable pub fail_unrouted : Sends F W E → Nwk → Option (Sends F W E × List (Action F W E))
  fail_unrouted s destination =
      Option.map (λ x. (with_unrouted s x.0, x.1))
        (Unrouted.fail from s.unrouted_unicasts destination)

  unfoldable pub drop_indirect_unicasts :
      Sends F W E → Option Eui64 → Nwk → Option (Sends F W E × List (Action F W E))
  drop_indirect_unicasts s eui64 nwk =
      Option.map (λ x. (with_unicasts s x.0, x.1))
        (Unicasts.drop_indirect from s.unicasts eui64 nwk)

  -- `unicasts.cancel(copy).unwrap()` on a record that was collected.
  abbrev pub cancel_copy : ℕ → Unicasts.Record F W → Unit {0} → Option (List (Action F W E))
  cancel_copy id r u =
      if Unicasts.is_lent r.stage
      then none
      else Unicasts.report r (err (from SendFailure.cancelled)) none

  unfoldable pub cancel_broadcast :
      Sends F W E → ℕ → Option (Option (Sends F W E × List (Action F W E)))
  cancel_broadcast s id = elim (any_lent s.unicasts (Unicasts.copies_of s.unicasts id)) [
    | none ↦ none
    | some true ↦ some none
    | some false ↦ elim (Broadcasts.cancel from s.broadcasts id) [
      | none ↦ none
      | some none ↦ some none
      | some (some (broadcasts, a)) ↦
          Option.map (λ x. some (record s { unicasts = x.0; broadcasts = broadcasts }, a ++ x.1))
            (drain cancel_copy (Unicasts.copies_of s.unicasts id) s.unicasts)
    ]
  ]

  -- A result of one table, with the others unchanged; `some none` is the refusal.
  unfoldable pub cancel : Sends F W E → ℕ → Option (Option (Sends F W E × List (Action F W E)))
  cancel s id =
      if FlatMap.contains_key s.unicasts id
      then Option.map (Option.map (λ x. (with_unicasts s x.0, x.1)))
          (Unicasts.cancel from s.unicasts id)
      else if FlatMap.contains_key s.unrouted_unicasts.records id
      then Option.map (λ x. some (with_unrouted s x.0, x.1))
          (Unrouted.cancel from s.unrouted_unicasts id)
      else cancel_broadcast s id

  unfoldable pub tick : Sends F W E → ℕ → Option (Sends F W E × List (Action F W E))
  tick s now = elim (Unicasts.tick from s.unicasts now) [
    | none ↦ none
    | some (unicasts, a) ↦ elim (Unrouted.tick from s.unrouted_unicasts now) [
      | none ↦ none
      | some (unrouted, b) ↦ elim (Broadcasts.tick from s.broadcasts now) [
        | none ↦ none
        | some (broadcasts, c) ↦ some (
          record s { unicasts = unicasts; unrouted_unicasts = unrouted; broadcasts = broadcasts },
          a ++ b ++ c,
        )
      ]
    ]
  ]

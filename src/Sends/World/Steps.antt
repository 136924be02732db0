-- ===== src/Sends/World/Steps.antt =====
-- Every legal call of the send tables runs without a panic, keeps them valid and loses no waiter; so
-- does every history.
use ziggurat.Base.{
  ℕ, ◌≡◌, refl, true, ◌||◌, not, Option, none, some, [], ◌++◌, any, ◌-◌, arith, inl, inr,
  Option-cases, Bool-cases, Result, ◌==◌,
}
use ziggurat.Base.Order.{nat_ord}
use ziggurat.Types.{Nwk, Eui64}
use ziggurat.FlatMap
use ziggurat.FlatMap.{FlatMap, get, values}
use ziggurat.FlatMap.Sorted.{contains_key-eq}
use ziggurat.Sends.{Address, SendFailure, Tunables}
use ziggurat.Sends.Ledger.{Keeps-same}
use ziggurat.Sends.Front
use ziggurat.Sends.Settling
use ziggurat.Sends.Front.{Sends, with_unicasts, with_broadcasts, with_unrouted}
use ziggurat.Sends.Unicasts
use ziggurat.Sends.Unicasts.Steps as US
use ziggurat.Sends.Broadcasts.Steps as BS
use ziggurat.Sends.Broadcasts.Timer as BT
use ziggurat.Sends.Unrouted
use ziggurat.Sends.Unrouted.{UnroutedUnicasts}
use ziggurat.Sends.Unrouted.Books as R
use ziggurat.Sends.World.{World, Event, Legal, admitted, acting, trying, silent, step}
use ziggurat.Sends.World.Valid.{IsValid, Good-trans, nothing, unicasts-Good, broadcasts-Good}
use ziggurat.Sends.World.Loans.{dequeue-Good}
use ziggurat.Sends.World.Reports.{frame_mut-Good, transmitted-Good}
use ziggurat.Sends.World.Route.{route_unicasts-Good}
use ziggurat.Sends.World.Calls.{
  Well, on_unicasts, on_broadcasts, unrouted-Good, unicast_enters, unrouted_enters,
  broadcast_enters,
}
use ziggurat.Sends.World.Cancel.{cancel-Well}

module _ {F W E : Type 0} (from : SendFailure → E) (w : World F W E) (v : IsValid w) where
  fail-Well :
      (destination : Nwk)
      → Well w v (acting w (Settling.fail_unrouted from w.sends destination)) nothing
  unfolding Settling.fail_unrouted
  fail-Well destination =
      let u = w.sends.unrouted_unicasts in
      let (run, keeps) = R.fail-Ends from u destination v.unrouted in
      let left : UnroutedUnicasts F W = record {
        records = R.others destination u.records;
        retries = (FlatMap.remove u.retries destination).0;
      } in
      (
        record w { sends = with_unrouted w.sends left },
        _,
        rw run refl,
        unrouted-Good w v left _ keeps,
      )

  -- The timer runs over the three tables in turn.
  tick-Well : (now : ℕ) → Well w v (acting w (Settling.tick from w.sends now)) nothing
  unfolding Settling.tick
  tick-Well now =
      let (m, a, run, books) = US.tick-Ends from w.sends.unicasts v.unicasts now in
      let first = unicasts-Good w m w.lent a v books v.lent_unicasts (λ k. refl) in
      let x : World F W E = record w { sends = with_unicasts w.sends m } in
      let (n, b, held_run, held_books) =
        R.tick-Ends from w.sends.unrouted_unicasts now v.unrouted in
      let left : UnroutedUnicasts F W = record (w.sends.unrouted_unicasts) { records = n } in
      let second = unrouted-Good x first.valid left b held_books in
      let y : World F W E = record x { sends = with_unrouted x.sends left } in
      let (p, c, last_run, last_books) = BT.tick-Ends from w.sends.broadcasts v.broadcasts now in
      let third =
        broadcasts-Good y p w.lent c second.valid last_books second.valid.lent_broadcasts
          (λ k. refl) in
      (
        record w {
          sends = record (w.sends) { unicasts = m; unrouted_unicasts = left; broadcasts = p };
        },
        a ++ b ++ c,
        rw (run, Settling.tick, held_run, last_run) refl,
        Good-trans (Good-trans first second) third,
      )

  retry-Well :
      (destination : Nwk)
      → Front.has_unrouted w.sends destination ≡ true
      → Well w v (trying w (Front.retry_discovery w.sends destination)) nothing
  unfolding Front.retry_discovery Front.has_unrouted Unrouted.has_unrouted Unrouted.retry_discovery
  retry-Well destination h =
      elim (Option-cases (get w.sends.unrouted_unicasts.retries destination)) [
        | inl g ↦
            absurd (ground (arith, contains_key-eq w.sends.unrouted_unicasts.retries destination))
        | inr (n, g) ↦
            let u = w.sends.unrouted_unicasts in
            let same =
              Keeps-same R.waiter_of R.on_loan R.Ok F E u.records (R.books u.records v.unrouted) in
            let spent : UnroutedUnicasts F W = record u {
              retries = FlatMap.modify u.retries destination (λ k. k - 1);
            } in
            elim (Bool-cases
              (n == 0 || not (any (Unrouted.is_toward destination) (values u.records)))) [
                | inl over ↦ (
                  w,
                  [],
                  rw (g, Unrouted.retry_discovery, over) refl,
                  unrouted-Good w v u [] same,
                )
                | inr more ↦ (
                  record w { sends = with_unrouted w.sends spent },
                  [],
                  rw (g, Unrouted.retry_discovery, more) refl,
                  unrouted-Good w v spent [] same,
                )
              ]
      ]

module _ {F W E : Type 0} (from : SendFailure → E)
    (resolve : F → F × Result (Nwk × Option Address) E) (t : Tunables) (w : World F W E)
    (v : IsValid w) where
  poll-Well :
      (eui64 : Option Eui64) (nwk : Option Nwk) (now : ℕ)
      → Well w v (silent w (Front.poll w.sends eui64 nwk now).0) nothing
  unfolding Front.poll
  poll-Well eui64 nwk now =
      let m = (Unicasts.poll w.sends.unicasts eui64 nwk now).0 in
      (
        record w { sends = with_unicasts w.sends m },
        [],
        refl,
        unicasts-Good w m w.lent [] v
            (US.poll-Keeps {E = E} w.sends.unicasts eui64 nwk now v.unicasts) v.lent_unicasts
            (λ k. refl),
      )

  -- One legal call.
  pub step-Well :
      (e : Event F W E) → Legal w e → Well w v (step from resolve t w e) (λ x. admitted x e)
  unfolding step Front.enqueue_unicast Front.enqueue_broadcast_copy Front.enqueue_unrouted_unicast
      Front.enqueue_broadcast Front.aps_ack_received Front.broadcast_delivered
      Settling.drop_indirect_unicasts
  step-Well (Event.enqueue_unicast u now) h = (_, [], refl, unicast_enters w v u now none t h)
  step-Well (Event.enqueue_broadcast_copy b u now) h =
      (_, [], refl, unicast_enters w v u now (some b) t h)
  step-Well (Event.enqueue_unrouted_unicast u now) h = (_, [], refl, unrouted_enters w v u now t h)
  step-Well (Event.enqueue_broadcast b now) h = (_, [], refl, broadcast_enters w v b now t h.0 h.1)
  step-Well (Event.dequeue now) h = let (x, run, good) = dequeue-Good w v now in (x, [], run, good)
  step-Well (Event.write_frame before l after frame) h =
      (_, [], refl, frame_mut-Good w v before l after h frame)
  step-Well (Event.transmitted before l after result now delay interval) h =
      transmitted-Good w v before l after h result now delay interval
  step-Well (Event.poll eui64 nwk now) h = poll-Well eui64 nwk now
  step-Well (Event.aps_ack_received ack) h =
      on_unicasts w v (US.ack_received-Ends w.sends.unicasts ack v.unicasts)
  step-Well (Event.retry_discovery destination) h = retry-Well from w v destination h
  step-Well (Event.fail_unrouted destination) h = fail-Well from w v destination
  step-Well (Event.route_unicasts destination now) h =
      route_unicasts-Good from resolve t w v destination now
  step-Well (Event.broadcast_delivered key) h =
      on_broadcasts w v (BS.delivered-Ends w.sends.broadcasts key v.broadcasts)
  step-Well (Event.drop_indirect_unicasts eui64 nwk) h =
      on_unicasts w v (US.drop_indirect-Ends from w.sends.unicasts v.unicasts eui64 nwk)
  step-Well (Event.cancel id) h = cancel-Well from w v id
  step-Well (Event.tick now) h = tick-Well from w v now

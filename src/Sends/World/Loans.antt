-- ===== src/Sends/World/Loans.antt =====
-- Frames that leave for the radio: `dequeue` on the tables.
use mathlib.Core.Option.{some-injective, some-ne-none}
use mathlib.Core.Option
use ziggurat.Base.{
  ℕ, ◌+◌, ◌≡◌, refl, ◌∙◌, ap, Bool, true, false, some, [], ◌∷◌, arith, inl, inr, Bool-cases,
  Option-cases,
}
use ziggurat.Base.Order.{nat_ord, key_eq}
use ziggurat.FlatMap
use ziggurat.FlatMap.{FlatMap, get}
use ziggurat.FlatMap.Everywhere.{eq_of_key_eq}
use ziggurat.Sends.{InFlight, Transmit, TxPriority}
use ziggurat.Sends.Candidates.{ready_record, ready_priority, chosen_ready}
use ziggurat.Sends.Ledger.{set_at, lent, lent_value}
use ziggurat.Sends.Front
use ziggurat.Sends.Front.{Sends, tagged, best, dequeue_from, with_unicasts, with_broadcasts}
use ziggurat.Sends.Unicasts
use ziggurat.Sends.Unicasts.{Unicasts}
use ziggurat.Sends.Unicasts.Books as U
use ziggurat.Sends.Unicasts.Steps as US
use ziggurat.Sends.Broadcasts
use ziggurat.Sends.Broadcasts.{Broadcasts}
use ziggurat.Sends.Broadcasts.Books as B
use ziggurat.Sends.Broadcasts.Steps as BS
use ziggurat.Sends.World.{World, lending}
use ziggurat.Sends.World.Valid.{
  bit, held, IsValid, Good, nothing, unicasts-Good, broadcasts-Good, same-Good,
}

-- What is ready is not on loan.
unicast_free :
    {F W : Type 0} (now : ℕ) (r : Unicasts.Record F W)
    → Unicasts.ready now r ≡ true
    → Unicasts.is_lent r.stage ≡ false
unfolding Unicasts.ready
unicast_free now r t = ground arith

broadcast_free :
    {F W E : Type 0} (now : ℕ) (r : Broadcasts.Record F W E)
    → Broadcasts.ready now r ≡ true
    → Broadcasts.is_lent r.copy ≡ false
unfolding Broadcasts.ready
broadcast_free now r t = ground arith

lend_bit :
    {V : Type 0} (is_lent : V → Bool) (m : FlatMap ℕ V) (id k : ℕ) (r : V)
    → get m id ≡ some r
    → is_lent r ≡ false
    → bit (key_eq id k) + bit (lent is_lent m k) ≡ bit (set_at (lent is_lent m) id true k)
unfolding lent lent_value
lend_bit is_lent m id k r g n = elim (Bool-cases (key_eq id k)) [
  | inl same ↦ rw (same, ← eq_of_key_eq id k same, g, n) refl
  | inr apart ↦ rw apart (omega arith)
]

module _ {F W E : Type 0} (w : World F W E) (v : IsValid w) where
  dequeue_unicast :
      (id : ℕ) (r : Unicasts.Record F W)
      → get w.sends.unicasts id ≡ some r
      → Unicasts.is_lent r.stage ≡ false
      → (x : World F W E) × (lending w (Option.map some (dequeue_from w.sends id true))
          ≡ some (x, []))
        × Good w x [] nothing
  unfolding dequeue_from held
  dequeue_unicast id r g n =
      let (frame, e, keeps) = US.dequeue-lends w.sends.unicasts id r v.unicasts g n in
      let l : InFlight F = record {
        id = id;
        frame = frame;
        transmit =
            Transmit.unicast r.next_hop (Unicasts.more_pending w.sends.unicasts id r.poll_address);
      } in
      let m = FlatMap.modify w.sends.unicasts id Unicasts.lend in
      (
        record { sends = with_unicasts w.sends m; lent = l ∷ w.lent },
        rw (e, dequeue_from) refl,
        unicasts-Good w m (l ∷ w.lent) [] v keeps
            (λ k.
              ap (λ b. bit (key_eq id k) + b) (v.lent_unicasts k)
              ∙ lend_bit U.on_loan w.sends.unicasts id k r g n)
            (λ k. omega arith),
      )

  dequeue_broadcast :
      (id : ℕ) (r : Broadcasts.Record F W E)
      → get w.sends.broadcasts id ≡ some r
      → Broadcasts.is_lent r.copy ≡ false
      → (x : World F W E) × (lending w (Option.map some (dequeue_from w.sends id false))
          ≡ some (x, []))
        × Good w x [] nothing
  unfolding dequeue_from held
  dequeue_broadcast id r g n =
      let (frame, e, keeps) = BS.dequeue-lends w.sends.broadcasts id r v.broadcasts g n in
      let l : InFlight F = record { id = id; frame = frame; transmit = Transmit.broadcast } in
      let m = FlatMap.modify w.sends.broadcasts id Broadcasts.lend in
      (
        record { sends = with_broadcasts w.sends m; lent = l ∷ w.lent },
        rw (e, dequeue_from) refl,
        broadcasts-Good w m (l ∷ w.lent) [] v keeps
            (λ k.
              ap (λ b. bit (key_eq id k) + b) (v.lent_broadcasts k)
              ∙ lend_bit B.on_loan w.sends.broadcasts id k r g n)
            (λ k. omega arith),
      )

  pub dequeue-Good :
      (now : ℕ)
      → (x : World F W E) × (lending w (Front.dequeue w.sends now) ≡ some (x, []))
        × Good w x [] nothing
  unfolding Front.dequeue
  dequeue-Good now = elim (Option-cases (best w.sends now)) [
    | inl e ↦ rw (e, Front.dequeue) (w, refl, same-Good w v)
    | inr (c, e) ↦
        rw (e, Front.dequeue)
          (by_table c (chosen_ready w.sends now v.unicasts.sorted v.broadcasts.sorted e))
  ]
    where
      by_table :
          (c : (ℕ × TxPriority) × Bool)
          → ready_priority w.sends now c.1 c.0.0 ≡ some c.0.1
          → (x : World F W E) × (lending w (Option.map some (dequeue_from w.sends c.0.0 c.1))
              ≡ some (x, []))
            × Good w x [] nothing
      by_table ((id, p), true) e =
          let (r, g, t, same) =
            ready_record (λ x. x.priority) (Unicasts.ready now) (get w.sends.unicasts id) e in
          dequeue_unicast id r g (unicast_free now r t)
      by_table ((id, p), false) e =
          let (r, g, t, same) =
            ready_record (λ x. x.priority) (Broadcasts.ready now) (get w.sends.broadcasts id) e in
          dequeue_broadcast id r g (broadcast_free now r t)

-- ===== src/Sends/World/Reports.antt =====
-- Frames that come back from the radio: `transmitted` on the tables.
use ziggurat.Base.{
  ℕ, ◌+◌, ◌≡◌, refl, sym, ◌∙◌, Bool, true, false, Option, some, List, [], ◌∷◌, ◌++◌, arith, inl,
  inr, Bool-cases, Option-cases,
}
use ziggurat.Base.Order.{nat_ord, key_eq}
use ziggurat.FlatMap.{FlatMap, get}
use ziggurat.FlatMap.Everywhere.{key_eq_self}
use ziggurat.Sends.{InFlight, frame_mut, Action, Transmit, Verdict}
use ziggurat.Sends.Ledger.{set_at, lent, lent_value, settled_weight}
use ziggurat.Sends.Front
use ziggurat.Sends.Front.{Sends, tagged, best, dequeue_from, with_unicasts, with_broadcasts}
use ziggurat.Sends.Unicasts.Books as U
use ziggurat.Sends.Broadcasts.Books as B
use ziggurat.Sends.Broadcasts.Reported.{transmitted-Ends}
use ziggurat.Sends.World.{World, acting}
use ziggurat.Sends.World.Valid.{
  bit, stands_for, held, held-middle, IsValid, Good, nothing, unicasts-Good, broadcasts-Good,
}

-- A loan has its record.
loan_record :
    {V : Type 0} (is_lent : V → Bool) (m : FlatMap ℕ V) (k : ℕ)
    → lent is_lent m k ≡ true
    → (r : V) × (get m k ≡ some r) × (is_lent r ≡ true)
unfolding lent lent_value
loan_record is_lent m k e = elim (Option-cases (get m k)) [
  | inl g ↦ absurd (ground arith)
  | inr (r, g) ↦ (r, g, rw g at e)
]

held_loan : (b : Bool) (rest : ℕ) → 1 + rest ≡ bit b → b ≡ true
held_loan true rest e = refl
held_loan false rest e = absurd (omega arith)

return_bit :
    (loans : ℕ → Bool) (id k : ℕ) (rest : ℕ)
    → bit (key_eq id k) + rest ≡ bit (loans k)
    → rest ≡ bit (set_at loans id false k)
return_bit loans id k rest e = elim (Bool-cases (key_eq id k)) [
  | inl same ↦ elim (Bool-cases (loans k)) [
    | inl l ↦ rw same (omega (arith, rw (same, l) at e))
    | inr n ↦ absurd (omega (arith, rw (same, n) at e))
  ]
  | inr apart ↦ rw apart (omega (arith, rw apart at e))
]

module _ {F W E : Type 0} (w : World F W E) (v : IsValid w) where
  module _ (before : List (InFlight F)) (l : InFlight F) (after : List (InFlight F))
      (lent_now : w.lent ≡ before ++ l ∷ after) where
    split :
        (kind : Bool) (k : ℕ)
        → held kind k w.lent ≡ bit (stands_for kind k l) + held kind k (before ++ after)
    split kind k = rw lent_now (held-middle kind k before l after)

    -- A write to a lent frame moves nothing.
    pub frame_mut-Good :
        (frame : F) → Good w (record w { lent = before ++ frame_mut l frame ∷ after }) [] nothing
    unfolding settled_weight
    frame_mut-Good frame = record {
      valid = record {
        unicasts = v.unicasts;
        broadcasts = v.broadcasts;
        unrouted = v.unrouted;
        lent_unicasts = λ k.
            held-middle true k before (frame_mut l frame) after
            ∙ sym (split true k)
            ∙ v.lent_unicasts k;
        lent_broadcasts = λ k.
            held-middle false k before (frame_mut l frame) after
            ∙ sym (split false k)
            ∙ v.lent_broadcasts k;
        free_unicasts = v.free_unicasts;
        free_broadcasts = v.free_broadcasts;
        free_unrouted = v.free_unrouted;
        apart = v.apart;
      };
      conserved = λ x. omega arith;
    }

    abbrev Reported : Option (Sends F W E × List (Action F W E)) → Type 0
    Reported result =
        (x : World F W E) × (acts : List (Action F W E)) × (acting
            (record w { lent = before ++ after }) result
          ≡ some (x, acts))
        × Good w x acts nothing

    report_unicast :
        (next_hop : ℕ) (pending : Bool) (result : Verdict E) (now delay interval : ℕ)
        → l.transmit ≡ Transmit.unicast next_hop pending
        → Reported (
            Front.report_of w.sends l.id l.frame result now delay interval
              (Transmit.unicast next_hop pending))
    unfolding Front.report_of
    report_unicast next_hop pending result now delay interval e =
        let mine : (k : ℕ)
            → bit (key_eq l.id k) + held true k (before ++ after)
              ≡ bit (U.loans w.sends.unicasts k) =
          λ k. sym (rw e at (split true k)) ∙ v.lent_unicasts k in
        let loaned = held_loan _ _ (rw (key_eq_self l.id) at (mine l.id)) in
        let (r, g, n) = loan_record U.on_loan w.sends.unicasts l.id loaned in
        let (m, acts, run, keeps) =
          U.transmitted-Ends w.sends.unicasts l.id r l.frame v.unicasts g result now delay n in
        (
          record { sends = with_unicasts w.sends m; lent = before ++ after },
          acts,
          rw (run, Front.report_of) refl,
          unicasts-Good w m (before ++ after) acts v keeps
              (λ k. return_bit (U.loans w.sends.unicasts) l.id k _ (mine k))
              (λ k. omega (arith, rw e at (split false k))),
        )

    report_broadcast :
        (result : Verdict E) (now delay interval : ℕ)
        → l.transmit ≡ Transmit.broadcast
        → Reported
            (Front.report_of w.sends l.id l.frame result now delay interval Transmit.broadcast)
    unfolding Front.report_of
    report_broadcast result now delay interval e =
        let mine : (k : ℕ)
            → bit (key_eq l.id k) + held false k (before ++ after)
              ≡ bit (B.loans w.sends.broadcasts k) =
          λ k. sym (rw e at (split false k)) ∙ v.lent_broadcasts k in
        let loaned = held_loan _ _ (rw (key_eq_self l.id) at (mine l.id)) in
        let (r, g, n) = loan_record B.on_loan w.sends.broadcasts l.id loaned in
        let (m, acts, run, keeps) =
          transmitted-Ends w.sends.broadcasts l.id r v.broadcasts g l.frame now interval result in
        (
          record { sends = with_broadcasts w.sends m; lent = before ++ after },
          acts,
          rw (run, Front.report_of) refl,
          broadcasts-Good w m (before ++ after) acts v keeps
              (λ k. return_bit (B.loans w.sends.broadcasts) l.id k _ (mine k))
              (λ k. omega (arith, rw e at (split true k))),
        )

    -- A lent frame that comes back is reported without a panic.
    pub transmitted-Good :
        (result : Verdict E) (now delay interval : ℕ)
        → (x : World F W E) × (acts : List (Action F W E)) × (acting
              (record w { lent = before ++ after })
              (Front.transmitted w.sends l result now delay interval)
            ≡ some (x, acts))
          × Good w x acts nothing
    unfolding Front.transmitted
    transmitted-Good result now delay interval = by_kind l.transmit refl
      where
        by_kind :
            (t : Transmit)
            → l.transmit ≡ t
            → Reported (Front.report_of w.sends l.id l.frame result now delay interval l.transmit)
        by_kind (Transmit.unicast next_hop pending) e =
            rw e (report_unicast next_hop pending result now delay interval e)
        by_kind Transmit.broadcast e = rw e (report_broadcast result now delay interval e)

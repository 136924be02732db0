-- ===== src/Sends/Broadcasts/Reported.antt =====
-- The books of sends/broadcasts.rs when a transmission is reported.
use ziggurat.Base.{
  ℕ, ◌≡◌, refl, false, some, [], ◌∷◌, arith, Bool-cases, inl, inr, ok, err, ◌&&◌, ◌||◌, not,
}
use ziggurat.Base.Order.{nat_ord}
use ziggurat.FlatMap.{get, modify}
use ziggurat.FlatMap.Twice.{modify-modify}
use ziggurat.Sends.{Verdict, Action}
use ziggurat.Sends.Ledger.{settled_weight, set_at}
use ziggurat.Sends.Broadcasts.{
  Record, CopyState, Broadcasts, is_lent, is_once, is_ok, returned, noted, noted_result,
  transmitted,
}
use ziggurat.Sends.Broadcasts.Books.{
  is_once-rearmed, Ok, IsValid, loans, Ends, written_settle, written,
}

module _ {F W E : Type 0} where
  -- The record after a report on a scheduled copy.
  reported : F → ℕ → ℕ → Verdict E → Record F W E → Record F W E
  reported frame now interval result r = noted result (returned frame now interval r)

  reported_fields :
      (frame : F) (now interval : ℕ) (result : Verdict E) (r : Record F W E)
      → let n = reported frame now interval result r in
        (n.frame ≡ some frame) × (n.waiter ≡ r.waiter) × (n.copy ≡ CopyState.idle)
  unfolding reported
  reported_fields frame now interval (ok u) r = (refl, refl, refl)
  reported_fields frame now interval (err x) r = (refl, refl, refl)

  reported-Ok :
      (frame : F) (now interval : ℕ) (result : Verdict E) (r : Record F W E)
      → is_once r.schedule ≡ false
      → Ok (reported frame now interval result r)
  unfolding reported
  reported-Ok frame now interval (ok u) r e = record {
    framed = refl;
    single = λ h. absurd (ground (arith, is_once-rearmed r.schedule now interval));
    owing = λ i h n. absurd (ground arith);
  }
  reported-Ok frame now interval (err x) r e = record {
    framed = refl;
    single = λ h. absurd (ground (arith, is_once-rearmed r.schedule now interval));
    owing = λ i h n. absurd (ground arith);
  }

  module _ (m : Broadcasts F W E) (id : ℕ) (r : Record F W E) (v : IsValid m)
      (g : get m id ≡ some r) (frame : F) (now interval : ℕ) where
    noted-Ends :
        (result : Verdict E)
        → is_once r.schedule ≡ false
        → Ends m
            (noted_result
              (modify (modify m id (returned frame now interval)) id (noted result))
              id
              r
              result)
            (set_at (loans m) id false)
    unfolding noted_result settled_weight reported
    noted-Ends result e =
        let f = reported frame now interval result in
        let (framed, same, idle) = reported_fields frame now interval result r in
        let fine = reported-Ok frame now interval result r e in
        let free : is_lent (f r).copy ≡ false = rw idle refl in
        rw (modify-modify m id (returned frame now interval) (noted result))
          (elim (Bool-cases (r.quorum_heard && (r.handed_off || is_ok result))) [
            | inl heard ↦ rw heard (written_settle m id r v g f frame framed same (ok tt))
            | inr waiting ↦ elim (Bool-cases (is_ok result && not r.handed_off)) [
              | inl first ↦
                  rw (waiting, first)
                    (written m id r v g f frame framed same (Action.handed_off r.waiter ∷ []) fine
                      free (λ w. refl))
              | inr later_copy ↦
                  rw (waiting, later_copy)
                    (written m id r v g f frame framed same [] fine free (λ w. refl))
            ]
          ])

    -- A lent frame comes back: no panic, and its loan is over.
    pub transmitted-Ends :
        (result : Verdict E)
        → Ends m (transmitted m id frame result now interval) (set_at (loans m) id false)
    unfolding transmitted
    transmitted-Ends result = elim (Bool-cases (is_once r.schedule)) [
      | inl single ↦
          rw (g, transmitted, single)
            (written_settle m id r v g (returned frame now interval) frame refl refl result)
      | inr more ↦ rw (g, transmitted, more) (noted-Ends result more)
    ]

-- ===== src/Sends/World/Histories.antt =====
-- The send tables over whole histories.
use ziggurat.Base.{
  ℕ, ◌+◌, ◌≡◌, refl, sym, ◌∙◌, subst, some, List, [], ◌∷◌, arith, inl, Result, Option,
}
use mathlib.Core.Option.{some-injective}
use ziggurat.Base.Order.{nat_ord}
use ziggurat.Types.{Nwk}
use ziggurat.FlatMap.{new}
use ziggurat.FlatMap.StaysSorted.{new-IsSorted}
use ziggurat.FlatMap.Laws.{get-new}
use ziggurat.FlatMap.Everywhere.{Everywhere-new}
use ziggurat.FlatMap.Totals.{total, total_of}
use ziggurat.Sends.{Address, SendFailure, Action, Tunables}
use ziggurat.Sends.Ledger.{settled_weight, settled_weight-append, lent, lent_value}
use ziggurat.Sends.Front
use ziggurat.Sends.Unicasts
use ziggurat.Sends.Unicasts.Books as U
use ziggurat.Sends.Unrouted
use ziggurat.Sends.Broadcasts
use ziggurat.Sends.Broadcasts.Books as B
use ziggurat.Sends.World.{World, Event, Legal, admitted, step, start, History}
use ziggurat.Sends.World.Valid.{held, IsValid, waiting}
use ziggurat.Sends.World.Steps.{step-Well}

module _ {F W E : Type 0} where
  start-IsValid : IsValid (start {F = F} {W = W} {E = E})
  unfolding Front.default Unrouted.default held lent lent_value
  start-IsValid = record {
    unicasts = record {
      sorted = new-IsSorted ℕ (Unicasts.Record F W);
      each = Everywhere-new (λ k. U.Ok);
    };
    broadcasts = record {
      sorted = new-IsSorted ℕ (Broadcasts.Record F W E);
      each = Everywhere-new (λ k. B.Ok);
    };
    unrouted = new-IsSorted ℕ (Unrouted.Record F W);
    lent_unicasts = λ k. rw (get-new {V = Unicasts.Record F W} k) refl;
    lent_broadcasts = λ k. rw (get-new {V = Broadcasts.Record F W E} k) refl;
    free_unicasts = λ k h. get-new k;
    free_broadcasts = λ k h. get-new k;
    free_unrouted = λ k h. get-new k;
    apart = λ k. inl (get-new k);
  }

  -- The weight of all waiters that a history admitted.
  abbrev pub admitted_all : (W → ℕ) → List (Event F W E) → ℕ
  admitted_all x [] = 0
  admitted_all x (e ∷ es) = admitted x e + admitted_all x es

module _ {F W E : Type 0} (from : SendFailure → E)
    (resolve : F → F × Result (Nwk × Option Address) E) (t : Tunables) where
  pub History-IsValid :
      {w : World F W E} {es : List (Event F W E)} {acts : List (Action F W E)}
      → History from resolve t w es acts
      → IsValid w
  History-IsValid History.begin = start-IsValid
  History-IsValid (History.next {w} h e legal run) =
      let (x, more, ends, good) = step-Well from resolve t w (History-IsValid h) e legal in
      subst (λ y. IsValid y.0) (some-injective _ _ (sym ends ∙ run)) good.valid

  -- In every state that a history of legal calls of the send tables reaches, no legal call panics.
  pub no_panic :
      {w : World F W E} {es : List (Event F W E)} {acts : List (Action F W E)}
      → History from resolve t w es acts
      → (e : Event F W E) → Legal w e
      → (v : World F W E) × (more : List (Action F W E)) × (step from resolve t w e
          ≡ some (v, more))
  no_panic {w} h e legal =
      let (v, more, ends, good) = step-Well from resolve t w (History-IsValid h) e legal in
      (v, more, ends)

  -- Over any history of legal calls of the send tables from the empty ones, the waiters admitted
  -- are those that the tables still hold and those settled, each counted as often: no send is lost
  -- or settled twice.
  pub settled_once :
      {w : World F W E} {es : List (Event F W E)} {acts : List (Action F W E)}
      → History from resolve t w es acts
      → (x : W → ℕ) → admitted_all x es ≡ waiting x w.sends + settled_weight x acts
  unfolding waiting settled_weight total total_of Front.default Unrouted.default new
  settled_once History.begin x = omega arith
  settled_once (History.next {w} {v} {es} {acts} {more} h e legal run) x =
      let (y, as_well, ends, good) = step-Well from resolve t w (History-IsValid h) e legal in
      let kept =
        subst (λ z. waiting x w.sends + admitted x e ≡ waiting x z.0.sends + settled_weight x z.1)
          (some-injective _ _ (sym ends ∙ run)) (good.conserved x) in
      omega (arith, kept, settled_once h x, settled_weight-append x acts more)

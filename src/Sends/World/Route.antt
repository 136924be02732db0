-- ===== src/Sends/World/Route.antt =====
-- Held sends whose route is known: `route_unicasts` moves each of them to the unicasts or settles it.
use mathlib.Core.Option
use mathlib.Core.Option.{some-ne-none}
use ziggurat.Base.{
  ℕ, ◌≡◌, refl, sym, ◌∙◌, ap, subst, true, ◌&&◌, Option, none, some, List, ◌++◌, arith, inl, inr,
  any, any-find, find-some, Result,
}
use ziggurat.Base.Order.{nat_ord, key_eq}
use ziggurat.Types.{Nwk}
use ziggurat.FlatMap
use ziggurat.FlatMap.{FlatMap, get}
use ziggurat.FlatMap.Sorted.{IsSorted}
use ziggurat.FlatMap.Entries.{get_found, get-All}
use ziggurat.FlatMap.Everywhere.{eq_of_key_eq}
use ziggurat.Sends.{Address, SendFailure, Action, Tunables}
use ziggurat.Sends.Ledger.{settled_weight-append}
use ziggurat.Sends.Settling.{route_each, route_unicasts}
use ziggurat.Sends.Unicasts.{Unicasts}
use ziggurat.Sends.Unrouted
use ziggurat.Sends.Unrouted.{UnroutedUnicasts, toward, is_toward}
use ziggurat.Sends.Unrouted.Books as R
use ziggurat.Sends.World.{World, acting}
use ziggurat.Sends.World.Valid.{bit, IsValid, Good, nothing, waiting}
use ziggurat.Sends.World.Moved.{Moved, All-Moved}

-- A scan for a record of one id toward a destination reads the table.
scan_get :
    {F W : Type 0} (destination k : ℕ) (m : FlatMap ℕ (Unrouted.Record F W))
    → IsSorted m
    → any (λ e. key_eq e.0 k && is_toward destination e.1) m.entries ≡ true
    → (r : Unrouted.Record F W) × (get m k ≡ some r) × (is_toward destination r ≡ true)
scan_get destination k m s h =
    let test = λ (e : ℕ × Unrouted.Record _ _). key_eq e.0 k && is_toward destination e.1 in
    let ((j, r), e) = any-find test m.entries h in
    let both = find-some test m.entries e in
    let same : key_eq j k ≡ true = ground arith in
    (r, subst (λ i. get m i ≡ some r) (eq_of_key_eq j k same) (get_found test m s e), ground arith)

-- A record toward the destination is no other.
others_gone :
    {F W : Type 0} (destination k : ℕ) (m : FlatMap ℕ (Unrouted.Record F W))
    (r : Unrouted.Record F W)
    → IsSorted m
    → get m k ≡ some r
    → is_toward destination r ≡ true
    → get (R.others destination m) k ≡ none
unfolding Option.bind
others_gone destination k m r s g h = R.get-others m destination k s ∙ rw (g, h) refl

module _ {F W E : Type 0} (from : SendFailure → E)
    (resolve : F → F × Result (Nwk × Option Address) E) (t : Tunables) (w : World F W E)
    (v : IsValid w) where
  -- The held sends `n` are those of the tables after a pass; those toward the destination move.
  routed-IsValid :
      (destination now : ℕ) (n : FlatMap ℕ (Unrouted.Record F W)) (u : UnroutedUnicasts F W)
      (m : Unicasts F W) (acts : List (Action F W E))
      → IsSorted n
      → ((k : ℕ) → get w.sends.unrouted_unicasts.records k ≡ none → get n k ≡ none)
      → Moved resolve t now destination n.entries w.sends.unicasts m acts
      → IsValid (record w {
        sends = record (w.sends) {
          unicasts = m;
          unrouted_unicasts = record u { records = R.others destination n };
        };
      })
  routed-IsValid destination now n u m acts sorted known moved = record {
    unicasts = moved.valid;
    broadcasts = v.broadcasts;
    unrouted = R.others-IsSorted n destination sorted;
    lent_unicasts = λ k. v.lent_unicasts k ∙ ap bit (sym (moved.loaned k));
    lent_broadcasts = v.lent_broadcasts;
    free_unicasts = λ k h. elim (moved.known k (v.free_unicasts k h)) [
      | inl free ↦ free
      | inr hit ↦
          let (r, g, d) = scan_get destination k n sorted hit in
          absurd (some-ne-none r (sym g ∙ known k (v.free_unrouted k h)))
    ];
    free_broadcasts = v.free_broadcasts;
    free_unrouted = λ k h. R.known-others n destination k sorted (known k (v.free_unrouted k h));
    apart = λ k. elim (v.apart k) [
      | inl gone ↦ inl (R.known-others n destination k sorted (known k gone))
      | inr free ↦ elim (moved.known k free) [
        | inl still ↦ inr still
        | inr hit ↦
            let (r, g, d) = scan_get destination k n sorted hit in
            inl (others_gone destination k n r sorted g d)
      ]
    ];
  }

  -- A known route moves or settles every send toward the destination, with no panic.
  pub route_unicasts-Good :
      (destination : Nwk) (now : ℕ)
      → (x : World F W E) × (acts : List (Action F W E)) × (acting w
            (route_unicasts resolve from w.sends destination now t)
          ≡ some (x, acts))
        × Good w x acts nothing
  unfolding route_unicasts waiting
  route_unicasts-Good destination now =
      let u = w.sends.unrouted_unicasts in
      let (n, a, run, keeps) = R.tick-Ends from u now v.unrouted in
      let live : UnroutedUnicasts F W = record u { records = n } in
      let sorted = keeps.valid.sorted in
      let apart_live : (k : ℕ) (r : Unrouted.Record F W)
          → get n k ≡ some r
          → get w.sends.unicasts k ≡ none =
        λ k r g. elim (v.apart k) [
          | inl gone ↦ absurd (some-ne-none r (sym g ∙ keeps.known k gone))
          | inr free ↦ free
        ] in
      let moved =
        All-Moved resolve t now destination n.entries w.sends.unicasts sorted v.unicasts
          (get-All (λ e. get w.sends.unicasts e.0 ≡ none) n sorted apart_live) in
      let pairs = route_each resolve (R.toward_all destination n.entries) now t w.sends.unicasts in
      (
        record w {
          sends = record (w.sends) {
            unicasts = pairs.0;
            unrouted_unicasts = record {
              records = R.others destination n;
              retries = (FlatMap.remove u.retries destination).0;
            };
          };
        },
        a ++ pairs.1,
        rw (run, route_unicasts, R.route_lem live destination sorted) refl,
        record {
          valid =
              routed-IsValid destination now n
                (record u { retries = (FlatMap.remove u.retries destination).0 }) pairs.0 pairs.1
                sorted keeps.known moved;
          conserved = λ x. omega (
            arith,
            keeps.conserved x,
            moved.conserved x,
            R.total-others x n destination,
            settled_weight-append x a pairs.1,
          );
        },
      )

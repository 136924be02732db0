-- ===== src/Sends/World/Calls.antt =====
-- Single calls of the send tables: a change of one table, and the admission of a send.
use mathlib.Core.Option
use mathlib.Core.Option.{some-injective, some-ne-none}
use ziggurat.Base.{
  ℕ, ◌<◌, ◌≤◌, ◌≡◌, refl, sym, ◌∙◌, ap, subst, Bool, false, Option, none, some, List, [], arith,
  inl, inr, Bool-cases, u32_max,
}
use ziggurat.Base.Order.{nat_ord, key_eq}
use ziggurat.FlatMap.Everywhere.{eq_of_key_eq}
use ziggurat.Sends.{Action, Tunables}
use ziggurat.Sends.Ledger.{settled_weight, Keeps}
use ziggurat.Sends.Front
use ziggurat.Sends.Front.{Sends, with_unicasts, with_broadcasts, with_unrouted}
use ziggurat.Sends.Unicasts
use ziggurat.Sends.Unicasts.{Unicasts}
use ziggurat.Sends.Unicasts.Books as U
use ziggurat.Sends.Unicasts.Steps as US
use ziggurat.Sends.Broadcasts
use ziggurat.Sends.Broadcasts.{Broadcasts}
use ziggurat.Sends.Broadcasts.Books as B
use ziggurat.Sends.Broadcasts.Steps as BS
use ziggurat.Sends.Unrouted
use ziggurat.Sends.Unrouted.{UnroutedUnicasts}
use ziggurat.Sends.Unrouted.Books as R
use ziggurat.Sends.World.{World, acting, Owes}
use ziggurat.Sends.World.Valid.{
  bit, IsValid, Good, nothing, waiting, unicasts-Good, broadcasts-Good,
}

module _ {F W E : Type 0} (w : World F W E) (v : IsValid w) where
  -- A call that ends well.
  abbrev pub Well : Option (World F W E × List (Action F W E)) → ((W → ℕ) → ℕ) → Type 0
  Well result added =
      (x : World F W E) × (acts : List (Action F W E)) × (result ≡ some (x, acts))
      × Good w x acts added

  -- A run on the unicasts, or on the broadcasts, that lends nothing.
  pub on_unicasts :
      {result : Option (Unicasts F W × List (Action F W E))}
      → U.Ends w.sends.unicasts result (U.loans w.sends.unicasts)
      → Well (acting w (Option.map (λ x. (with_unicasts w.sends x.0, x.1)) result)) nothing
  on_unicasts (m, acts, run, keeps) = (
    record w { sends = with_unicasts w.sends m },
    acts,
    rw run refl,
    unicasts-Good w m w.lent acts v keeps v.lent_unicasts (λ k. refl),
  )

  pub on_broadcasts :
      {result : Option (Broadcasts F W E × List (Action F W E))}
      → B.Ends w.sends.broadcasts result (B.loans w.sends.broadcasts)
      → Well (acting w (Option.map (λ x. (with_broadcasts w.sends x.0, x.1)) result)) nothing
  on_broadcasts (m, acts, run, keeps) = (
    record w { sends = with_broadcasts w.sends m },
    acts,
    rw run refl,
    broadcasts-Good w m w.lent acts v keeps v.lent_broadcasts (λ k. refl),
  )

  -- The unrouted sends change by the books, whatever the restarts left.
  pub unrouted-Good :
      (n : UnroutedUnicasts F W) (acts : List (Action F W E)) {loans : ℕ → Bool}
      → Keeps R.waiter_of R.on_loan R.Ok F E w.sends.unrouted_unicasts.records n.records acts loans
      → Good w (record w { sends = with_unrouted w.sends n }) acts nothing
  unfolding waiting
  unrouted-Good n acts keeps = record {
    valid = record {
      unicasts = v.unicasts;
      broadcasts = v.broadcasts;
      unrouted = keeps.valid.sorted;
      lent_unicasts = v.lent_unicasts;
      lent_broadcasts = v.lent_broadcasts;
      free_unicasts = v.free_unicasts;
      free_broadcasts = v.free_broadcasts;
      free_unrouted = λ k h. keeps.known k (v.free_unrouted k h);
      apart = λ k. elim (v.apart k) [ inl a ↦ inl (keeps.known k a) | inr a ↦ inr a ];
    };
    conserved = λ x. omega (arith, keeps.conserved x);
  }

  fresh_le :
      (k : ℕ)
      → w.sends.next_id < u32_max
      → Front.next_id_of w.sends.next_id ≤ k
      → w.sends.next_id ≤ k
  fresh_le k h l = omega arith

  fresh_apart :
      (k : ℕ)
      → w.sends.next_id < u32_max
      → Front.next_id_of w.sends.next_id ≤ k
      → key_eq w.sends.next_id k ≡ false
  fresh_apart k h l = ground arith

  pub unicast_enters :
      (u : Unicasts.Unicast F W) (now : ℕ) (copy_of : Option ℕ) (t : Tunables)
      → w.sends.next_id < u32_max
      → Good w
          (record w {
            sends = record (w.sends) {
              next_id = Front.next_id_of w.sends.next_id;
              unicasts = Unicasts.enqueue w.sends.unicasts w.sends.next_id u now none copy_of t;
            };
          })
          []
          (λ x. x u.waiter)
  unfolding waiting settled_weight
  unicast_enters u now copy_of t h =
      let id = w.sends.next_id in
      let (valid, loaned, added, known) =
        US.enqueue-new w.sends.unicasts id u now none copy_of t v.unicasts
          (v.free_unicasts id (omega arith)) in
      record {
        valid = record {
          unicasts = valid;
          broadcasts = v.broadcasts;
          unrouted = v.unrouted;
          lent_unicasts = λ k. v.lent_unicasts k ∙ ap bit (sym (loaned k));
          lent_broadcasts = v.lent_broadcasts;
          free_unicasts = λ k l. known k (fresh_apart k h l) (v.free_unicasts k (fresh_le k h l));
          free_broadcasts = λ k l. v.free_broadcasts k (fresh_le k h l);
          free_unrouted = λ k l. v.free_unrouted k (fresh_le k h l);
          apart = λ k. elim (Bool-cases (key_eq id k)) [
            | inl same ↦ inl (
                v.free_unrouted k
                  (subst (λ j. w.sends.next_id ≤ j) (eq_of_key_eq id k same) (omega arith)))
            | inr other ↦ elim (v.apart k) [ inl a ↦ inl a | inr a ↦ inr (known k other a) ]
          ];
        };
        conserved = λ x. omega (arith, added x);
      }

  pub unrouted_enters :
      (send : Unrouted.UnroutedUnicast F W) (now : ℕ) (t : Tunables)
      → w.sends.next_id < u32_max
      → Good w
          (record w {
            sends = record (w.sends) {
              next_id = Front.next_id_of w.sends.next_id;
              unrouted_unicasts =
                  Unrouted.enqueue w.sends.unrouted_unicasts w.sends.next_id send now t;
            };
          })
          []
          (λ x. x send.waiter)
  unfolding waiting settled_weight
  unrouted_enters send now t h =
      let id = w.sends.next_id in
      let (valid, added, known) =
        R.enqueue-new w.sends.unrouted_unicasts id send now t v.unrouted
          (v.free_unrouted id (omega arith)) in
      record {
        valid = record {
          unicasts = v.unicasts;
          broadcasts = v.broadcasts;
          unrouted = valid;
          lent_unicasts = v.lent_unicasts;
          lent_broadcasts = v.lent_broadcasts;
          free_unicasts = λ k l. v.free_unicasts k (fresh_le k h l);
          free_broadcasts = λ k l. v.free_broadcasts k (fresh_le k h l);
          free_unrouted = λ k l. known k (fresh_apart k h l) (v.free_unrouted k (fresh_le k h l));
          apart = λ k. elim (Bool-cases (key_eq id k)) [
            | inl same ↦ inr (
                v.free_unicasts k
                  (subst (λ j. w.sends.next_id ≤ j) (eq_of_key_eq id k same) (omega arith)))
            | inr other ↦ elim (v.apart k) [ inl a ↦ inl (known k other a) | inr a ↦ inr a ]
          ];
        };
        conserved = λ x. omega (arith, added x);
      }

  pub broadcast_enters :
      (b : Broadcasts.Broadcast F W) (now : ℕ) (t : Tunables)
      → w.sends.next_id < u32_max
      → Owes b.schedule
      → Good w
          (record w {
            sends = record (w.sends) {
              next_id = Front.next_id_of w.sends.next_id;
              broadcasts = Broadcasts.enqueue w.sends.broadcasts w.sends.next_id b now t;
            };
          })
          []
          (λ x. x b.waiter)
  unfolding waiting settled_weight
  broadcast_enters b now t h owes =
      let id = w.sends.next_id in
      let (valid, loaned, added, known) =
        BS.enqueue-new w.sends.broadcasts id b now t v.broadcasts
          (v.free_broadcasts id (omega arith)) owes in
      record {
        valid = record {
          unicasts = v.unicasts;
          broadcasts = valid;
          unrouted = v.unrouted;
          lent_unicasts = v.lent_unicasts;
          lent_broadcasts = λ k. v.lent_broadcasts k ∙ ap bit (sym (loaned k));
          free_unicasts = λ k l. v.free_unicasts k (fresh_le k h l);
          free_broadcasts =
              λ k l. known k (fresh_apart k h l) (v.free_broadcasts k (fresh_le k h l));
          free_unrouted = λ k l. v.free_unrouted k (fresh_le k h l);
          apart = v.apart;
        };
        conserved = λ x. omega (arith, added x);
      }

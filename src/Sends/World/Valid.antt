-- ===== src/Sends/World/Valid.antt =====
-- What holds of the send tables and the lent frames together, and how a change of one table keeps it.
use ziggurat.Base.{
  ℕ, ◌+◌, ◌≤◌, ◌≡◌, refl, sym, ◌∙◌, ap, Bool, true, false, ◌&&◌, not, none, List, [], ◌∷◌, ◌++◌,
  arith, ◌⊎◌, inl, inr,
}
use ziggurat.Base.Order.{nat_ord, key_eq}
use ziggurat.FlatMap.{get}
use ziggurat.FlatMap.Sorted.{IsSorted}
use ziggurat.FlatMap.Totals.{total}
use ziggurat.Sends.{InFlight, Action}
use ziggurat.Sends.Ledger.{settled_weight, settled_weight-append, Keeps}
use ziggurat.Sends.Front.{Sends, with_unicasts, with_broadcasts}
use ziggurat.Sends.Unicasts.{Unicasts}
use ziggurat.Sends.Unicasts.Books as U
use ziggurat.Sends.Broadcasts.{Broadcasts}
use ziggurat.Sends.Broadcasts.Books as B
use ziggurat.Sends.World.{World, is_unicast}

abbrev pub bit : Bool → ℕ
bit true = 1
bit false = 0

-- The lent frame stands for record `k` of the unicasts, or of the broadcasts.
abbrev pub stands_for : {F : Type 0} → Bool → ℕ → InFlight F → Bool
stands_for true k l = is_unicast l.transmit && key_eq l.id k
stands_for false k l = not (is_unicast l.transmit) && key_eq l.id k

abbrev pub nothing : {W : Type 0} → (W → ℕ) → ℕ
nothing x = 0

module _ {F : Type 0} where
  unfoldable pub held : Bool → ℕ → List (InFlight F) → ℕ
  held kind k [] = 0
  held kind k (l ∷ ls) = bit (stands_for kind k l) + held kind k ls

  pub held-middle :
      (kind : Bool) (k : ℕ) (before : List (InFlight F)) (l : InFlight F)
      (after : List (InFlight F))
      → held kind k (before ++ l ∷ after)
        ≡ bit (stands_for kind k l) + held kind k (before ++ after)
  unfolding held
  held-middle kind k [] l after = refl
  held-middle kind k (x ∷ before) l after = omega (arith, held-middle kind k before l after)

module _ {F W E : Type 0} where
  -- The weight of the waiters that the tables hold.
  unfoldable pub waiting : (W → ℕ) → Sends F W E → ℕ
  waiting w s =
      total (λ r. w r.waiter) s.unicasts
      + total (λ r. w r.waiter) s.unrouted_unicasts.records
      + total (λ r. w r.waiter) s.broadcasts

  -- Each table is valid; a record is on loan exactly if the sender holds its frame, once; ids from the
  -- next one on are free, and no id is in two of the unicast tables.
  pub record IsValid (w : World F W E) : Type 0 where
    pub unicasts : U.IsValid w.sends.unicasts
    pub broadcasts : B.IsValid w.sends.broadcasts
    pub unrouted : IsSorted w.sends.unrouted_unicasts.records
    pub lent_unicasts : (k : ℕ) → held true k w.lent ≡ bit (U.loans w.sends.unicasts k)
    pub lent_broadcasts : (k : ℕ) → held false k w.lent ≡ bit (B.loans w.sends.broadcasts k)
    pub free_unicasts : (k : ℕ) → w.sends.next_id ≤ k → get w.sends.unicasts k ≡ none
    pub free_broadcasts : (k : ℕ) → w.sends.next_id ≤ k → get w.sends.broadcasts k ≡ none
    pub free_unrouted :
        (k : ℕ) → w.sends.next_id ≤ k → get w.sends.unrouted_unicasts.records k ≡ none
    pub apart :
        (k : ℕ) → (get w.sends.unrouted_unicasts.records k ≡ none) ⊎ (get w.sends.unicasts k ≡ none)

  -- A call from `w` with the given admitted weight ends in `v`.
  pub record Good (w v : World F W E) (acts : List (Action F W E)) (added : (W → ℕ) → ℕ)
      : Type 0 where
    pub valid : IsValid v
    pub conserved :
        (x : W → ℕ) → waiting x w.sends + added x ≡ waiting x v.sends + settled_weight x acts

  -- The unicasts change by the books, and the lent frames with them.
  pub unicasts-Good :
      (w : World F W E) (m : Unicasts F W) (ls : List (InFlight F)) (acts : List (Action F W E))
      {loans : ℕ → Bool}
      → IsValid w
      → Keeps U.waiter_of U.on_loan U.Ok F E w.sends.unicasts m acts loans
      → ((k : ℕ) → held true k ls ≡ bit (loans k))
      → ((k : ℕ) → held false k ls ≡ held false k w.lent)
      → Good w (record { sends = with_unicasts w.sends m; lent = ls }) acts nothing
  unfolding waiting
  unicasts-Good w m ls acts v keeps mine others = record {
    valid = record {
      unicasts = keeps.valid;
      broadcasts = v.broadcasts;
      unrouted = v.unrouted;
      lent_unicasts = λ k. mine k ∙ ap bit (sym (keeps.loaned k));
      lent_broadcasts = λ k. others k ∙ v.lent_broadcasts k;
      free_unicasts = λ k h. keeps.known k (v.free_unicasts k h);
      free_broadcasts = v.free_broadcasts;
      free_unrouted = v.free_unrouted;
      apart = λ k. elim (v.apart k) [ inl a ↦ inl a | inr a ↦ inr (keeps.known k a) ];
    };
    conserved = λ x. omega (arith, keeps.conserved x);
  }

  pub broadcasts-Good :
      (w : World F W E) (m : Broadcasts F W E) (ls : List (InFlight F)) (acts : List (Action F W E))
      {loans : ℕ → Bool}
      → IsValid w
      → Keeps B.waiter_of B.on_loan B.Ok F E w.sends.broadcasts m acts loans
      → ((k : ℕ) → held false k ls ≡ bit (loans k))
      → ((k : ℕ) → held true k ls ≡ held true k w.lent)
      → Good w (record { sends = with_broadcasts w.sends m; lent = ls }) acts nothing
  unfolding waiting
  broadcasts-Good w m ls acts v keeps mine others = record {
    valid = record {
      unicasts = v.unicasts;
      broadcasts = keeps.valid;
      unrouted = v.unrouted;
      lent_unicasts = λ k. others k ∙ v.lent_unicasts k;
      lent_broadcasts = λ k. mine k ∙ ap bit (sym (keeps.loaned k));
      free_unicasts = v.free_unicasts;
      free_broadcasts = λ k h. keeps.known k (v.free_broadcasts k h);
      free_unrouted = v.free_unrouted;
      apart = v.apart;
    };
    conserved = λ x. omega (arith, keeps.conserved x);
  }

  -- A change that moves nothing.
  pub same-Good : (w : World F W E) → IsValid w → Good w w [] nothing
  unfolding settled_weight
  same-Good w v = record { valid = v; conserved = λ x. omega arith }

  -- Two calls in a row.
  pub Good-trans :
      {w x y : World F W E} {a b : List (Action F W E)}
      → Good w x a nothing
      → Good x y b nothing
      → Good w y (a ++ b) nothing
  Good-trans {w} {x} {y} {a} {b} g h = record {
    valid = h.valid;
    conserved = λ z. omega (arith, g.conserved z, h.conserved z, settled_weight-append z a b);
  }

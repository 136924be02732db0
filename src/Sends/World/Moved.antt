-- ===== src/Sends/World/Moved.antt =====
-- Held sends toward one destination that are moved to the unicasts or settled, one after the other.
use ziggurat.Base.{
  ℕ, ◌+◌, ◌≡◌, refl, ◌∙◌, true, false, ◌&&◌, Option, none, some, List, [], ◌∷◌, arith, ◌⊎◌, inl,
  inr, Option-cases, Bool-cases, All, any, Result, ok, err,
}
use ziggurat.Base.Order.{nat_ord, key_eq}
use ziggurat.Types.{Nwk}
use ziggurat.FlatMap.{get}
use ziggurat.FlatMap.Sorted.{Above, Sorted}
use ziggurat.FlatMap.Drain.{emitted}
use ziggurat.FlatMap.Totals.{total, selected_weight}
use ziggurat.Sends.{Address, Action, Tunables}
use ziggurat.Sends.Ledger.{settled_weight, settled_weight-append}
use ziggurat.Sends.Settling.{routed_by, route_each}
use ziggurat.Sends.Unicasts.{Unicasts}
use ziggurat.Sends.Unicasts.Books as U
use ziggurat.Sends.Unicasts.Steps as US
use ziggurat.Sends.Unrouted
use ziggurat.Sends.Unrouted.{UnroutedUnicasts, toward, is_toward}
use ziggurat.Sends.Unrouted.Books as R

module _ {F W E : Type 0} (resolve : F → F × Result (Nwk × Option Address) E) (t : Tunables)
    (now : ℕ) where
  -- What moving the records `es` toward a destination makes of the unicasts `m`.
  pub record Moved (destination : Nwk) (es : List (ℕ × Unrouted.Record F W)) (m n : Unicasts F W)
      (acts : List (Action F W E)) : Type 0 where
    pub valid : U.IsValid n
    pub loaned : (k : ℕ) → U.loans n k ≡ U.loans m k
    pub conserved :
        (x : W → ℕ)
        → total (λ r. x r.waiter) m + selected_weight (toward destination) (λ r. x r.waiter) es
          ≡ total (λ r. x r.waiter) n + settled_weight x acts
    pub known :
        (k : ℕ)
        → get m k ≡ none
        → (get n k ≡ none) ⊎ (any (λ e. key_eq e.0 k && is_toward destination e.1) es ≡ true)

  routed : ℕ → Unrouted.Record F W → Unicasts F W → Unicasts F W × List (Action F W E)
  routed id r m = routed_by resolve id r (resolve r.frame) now t m

  -- One record is moved or settled.
  record Placed (id : ℕ) (r : Unrouted.Record F W) (m n : Unicasts F W) (acts : List (Action F W E))
      : Type 0 where
    pub valid : U.IsValid n
    pub loaned : (k : ℕ) → U.loans n k ≡ U.loans m k
    pub conserved :
        (x : W → ℕ)
        → total (λ s. x s.waiter) m + x r.waiter ≡ total (λ s. x s.waiter) n + settled_weight x acts
    pub known : (k : ℕ) → key_eq id k ≡ false → get m k ≡ none → get n k ≡ none

  routed-Placed :
      (id : ℕ) (r : Unrouted.Record F W) (m : Unicasts F W)
      → U.IsValid m
      → get m id ≡ none
      → Placed id r m (routed id r m).0 (routed id r m).1
  unfolding routed routed_by settled_weight
  routed-Placed id r m v g = by_verdict (resolve r.frame)
    where
      by_verdict :
          (x : F × Result (Nwk × Option Address) E)
          → Placed id r m (routed_by resolve id r x now t m).0 (routed_by resolve id r x now t m).1
      by_verdict (frame, ok (next_hop, poll_address)) =
          let (valid, loaned, added, known) =
            US.enqueue-new m id
              (record {
                frame = frame;
                priority = r.priority;
                waiter = r.waiter;
                confirm = r.confirm;
                next_hop = next_hop;
                poll_address = poll_address;
              })
              now (some r.deadline) none t v g in
          record {
            valid = valid;
            loaned = loaned;
            conserved = λ x. omega (arith, added x);
            known = known;
          }
      by_verdict (frame, err e) = record {
        valid = v;
        loaned = λ k. refl;
        conserved = λ x. omega arith;
        known = λ k a h. h;
      }

  apart_higher :
      (id : ℕ) (es : List (ℕ × Unrouted.Record F W)) (m n : Unicasts F W)
      → Above id es
      → ((k : ℕ) → key_eq id k ≡ false → get m k ≡ none → get n k ≡ none)
      → All (λ e. get m e.0 ≡ none) es
      → All (λ e. get n e.0 ≡ none) es
  apart_higher id [] m n a h free = tt
  apart_higher id ((k, r) ∷ es) m n a h free =
      (h k (ground (arith, a.0)) free.0, apart_higher id es m n a.1 h free.1)

  pub All-Moved :
      (destination : Nwk) (es : List (ℕ × Unrouted.Record F W)) (m : Unicasts F W)
      → Sorted es
      → U.IsValid m
      → All (λ e. get m e.0 ≡ none) es
      → let n = route_each resolve (R.toward_all destination es) now t m in
        Moved destination es m n.0 n.1
  unfolding route_each R.toward_all emitted selected_weight settled_weight routed
  All-Moved destination [] m s v free = record {
    valid = v;
    loaned = λ k. refl;
    conserved = λ x. omega arith;
    known = λ k g. inl g;
  }
  All-Moved destination ((id, r) ∷ es) m s v free = elim (Option-cases (toward destination id r)) [
    | inl skip ↦
        let rest = All-Moved destination es m s.1 v free.1 in
        rw (skip, emitted)
          (record {
            valid = rest.valid;
            loaned = rest.loaned;
            conserved = λ x. rw (skip, selected_weight) (rest.conserved x);
            known = λ k g. elim (rest.known k g) [ inl a ↦ inl a | inr b ↦ inr (ground arith) ];
          })
    | inr (u, hit) ↦
        let (n, a) = routed id r m in
        let placed = routed-Placed id r m v free.0 in
        let rest =
          All-Moved destination es n s.1 placed.valid
            (apart_higher id es m n s.0 placed.known free.1) in
        rw (hit, emitted)
          (record {
            valid = rest.valid;
            loaned = λ k. rest.loaned k ∙ placed.loaned k;
            conserved = λ x.
                rw (hit, selected_weight)
                  (omega (
                    arith,
                    rest.conserved x,
                    placed.conserved x,
                    settled_weight-append x a
                        (route_each resolve (R.toward_all destination es) now t n).1,
                  ));
            known = λ k g. elim (Bool-cases (key_eq id k)) [
              | inl same ↦ inr (ground (arith, hit))
              | inr other ↦ elim (rest.known k (placed.known k other g)) [
                | inl b ↦ inl b
                | inr b ↦ inr (ground arith)
              ]
            ];
          })
  ]

-- ===== src/Sends/Unrouted/Books.antt =====
-- Every operation on the unrouted unicasts keeps the books. None of their frames is ever on loan.
use mathlib.Core.Option
use ziggurat.Base.{
  ℕ, ◌+◌, ◌≡◌, refl, sym, ◌∙◌, Bool, false, Option, none, some, List, [], ◌∷◌, if◌then◌else◌, arith,
  inl, inr, Option-cases, map, is_none,
}
use ziggurat.Base.Order.{nat_ord, key_eq}
use ziggurat.Types.{Nwk}
use ziggurat.FlatMap.{FlatMap, get, remove}
use ziggurat.FlatMap.Sorted.{IsSorted, remove_old}
use ziggurat.FlatMap.StaysSorted.{insert-IsSorted}
use ziggurat.FlatMap.Laws.{get-insert}
use ziggurat.FlatMap.Drain.{unselected, emitted, drain-collect}
use ziggurat.FlatMap.Entries.{get-All}
use ziggurat.FlatMap.Totals.{
  total, total-insert, selected_weight, total-unselected, unselected-IsSorted, get-unselected,
}
use ziggurat.Sends.{SendFailure, Action, Tunables}
use ziggurat.Sends.Ledger
use ziggurat.Sends.Ledger.{settled_weight, lent, lent_value, set_at, Keeps, remove-Keeps}
use ziggurat.Sends.Sweep.{settle_all-Runs}
use ziggurat.Sends.Unrouted.{
  Record, UnroutedUnicasts, toward, taken, take, route, fail, cancel, tick, lapsed, lapse,
  settled_with, UnroutedUnicast, enqueue,
}

module _ {F W : Type 0} where
  abbrev pub waiter_of : Record F W → W
  waiter_of r = r.waiter

  abbrev pub on_loan : Record F W → Bool
  on_loan r = false

  abbrev pub Ok : Record F W → Type 0
  Ok r = Unit

  pub books : (m : FlatMap ℕ (Record F W)) → IsSorted m → Ledger.IsValid waiter_of on_loan Ok m
  books m s = record { sorted = s; each = λ k r g. tt }

  pub no_loans : (m : FlatMap ℕ (Record F W)) (k : ℕ) → lent on_loan m k ≡ false
  unfolding lent lent_value
  no_loans m k = by_value (get m k)
    where
      by_value : (o : Option (Record F W)) → lent_value on_loan o ≡ false
      by_value none = refl
      by_value (some r) = refl

  -- What is taken of the records toward a destination, and what stays.
  unfoldable pub toward_all : Nwk → List (ℕ × Record F W) → List (ℕ × Record F W)
  toward_all destination es = emitted (toward destination) (λ id r u. (id, r) ∷ []) es

  unfoldable pub others : Nwk → FlatMap ℕ (Record F W) → FlatMap ℕ (Record F W)
  others destination m = record { entries = unselected (toward destination) m.entries }

  pub take_lem :
      (m : FlatMap ℕ (Record F W)) (destination : Nwk)
      → IsSorted m
      → take m destination ≡ some (others destination m, toward_all destination m.entries)
  unfolding take others toward_all
  take_lem m destination s =
      drain-collect (toward destination) taken (λ id r u. (id, r) ∷ []) m s
        (get-All _ m s (λ k v g x e. refl))

  pub route_lem :
      (u : UnroutedUnicasts F W) (destination : Nwk)
      → IsSorted u.records
      → route u destination
        ≡ some (
          record {
            records = others destination u.records;
            retries = (remove u.retries destination).0;
          },
          toward_all destination u.records.entries,
        )
  unfolding route
  route_lem u destination s = rw (take_lem u.records destination s, route) refl

  pub others-IsSorted :
      (m : FlatMap ℕ (Record F W)) (destination : Nwk)
      → IsSorted m
      → IsSorted (others destination m)
  unfolding others
  others-IsSorted m destination s = unselected-IsSorted (toward destination) m s

  pub get-others :
      (m : FlatMap ℕ (Record F W)) (destination : Nwk) (k : ℕ)
      → IsSorted m
      → get (others destination m) k
        ≡ Option.bind (get m k) (λ r. if is_none (toward destination k r) then some r else none)
  unfolding others
  get-others m destination k s = get-unselected (toward destination) m k s

  pub known-others :
      (m : FlatMap ℕ (Record F W)) (destination : Nwk) (k : ℕ)
      → IsSorted m
      → get m k ≡ none
      → get (others destination m) k ≡ none
  unfolding Option.bind
  known-others m destination k s g = get-others m destination k s ∙ rw g refl

  pub total-others :
      (w : W → ℕ) (m : FlatMap ℕ (Record F W)) (destination : Nwk)
      → total (λ r. w r.waiter) (others destination m)
          + selected_weight (toward destination) (λ r. w r.waiter) m.entries
        ≡ total (λ r. w r.waiter) m
  unfolding others total
  total-others w m destination = total-unselected (toward destination) (λ r. w r.waiter) m.entries

  -- A held send enters under a new id.
  pub enqueue-new :
      (u : UnroutedUnicasts F W) (id : ℕ) (send : UnroutedUnicast F W) (now : ℕ) (t : Tunables)
      → IsSorted u.records
      → get u.records id ≡ none
      → IsSorted (enqueue u id send now t).records
        × ((x : W → ℕ)
            → total (λ r. x r.waiter) (enqueue u id send now t).records
              ≡ total (λ r. x r.waiter) u.records + x send.waiter)
        × ((k : ℕ)
            → key_eq id k ≡ false
            → get u.records k ≡ none
            → get (enqueue u id send now t).records k ≡ none)
  unfolding enqueue
  enqueue-new u id send now t s g = (
    insert-IsSorted u.records id _ s,
    λ x. total-insert (λ r. x r.waiter) u.records id _ g,
    λ k a e. get-insert u.records id k _ ∙ rw (a, e) refl,
  )

module _ {F W E : Type 0} (from : SendFailure → E) where
  pub tick-Ends :
      (u : UnroutedUnicasts F W) (now : ℕ)
      → IsSorted u.records
      → (n : FlatMap ℕ (Record F W)) × (acts : List (Action F W E)) × (tick from u now
          ≡ some (record u { records = n }, acts))
        × Keeps waiter_of on_loan Ok F E u.records n acts (lent on_loan u.records)
  unfolding tick settled_weight settled_with
  tick-Ends u now s =
      let (n, acts, run, keeps) =
        settle_all-Runs waiter_of on_loan Ok (lapsed now) (lapse from)
          (λ id r x. settled_with from r SendFailure.handoff_timeout ∷ [])
          (λ id r x o e. (refl, refl, λ w. omega arith)) u.records (books u.records s) in
      (n, acts, rw (run, tick) refl, keeps)

  pub cancel-Keeps :
      (u : UnroutedUnicasts F W) (id : ℕ) (r : Record F W)
      → IsSorted u.records
      → get u.records id ≡ some r
      → (cancel from u id
          ≡ some (
            record u { records = (remove u.records id).0 },
            settled_with from r SendFailure.cancelled ∷ [],
          ))
        × Keeps waiter_of on_loan Ok F E u.records
            (remove u.records id).0
            (settled_with from r SendFailure.cancelled ∷ [])
            (set_at (lent on_loan u.records) id false)
  unfolding cancel settled_weight settled_with
  cancel-Keeps u id r s g = (
    rw (remove_old u.records id, g, cancel) refl,
    remove-Keeps waiter_of on_loan Ok u.records id _ (books u.records s) g (λ w. omega arith),
  )

  -- The actions of a failed discovery weigh what was taken.
  fail-weight :
      (destination : Nwk) (w : W → ℕ) (es : List (ℕ × Record F W))
      → settled_weight w (
          map
            (λ e. settled_with from e.1 SendFailure.route_discovery_timeout)
            (toward_all destination es))
        ≡ selected_weight (toward destination) (λ r. w r.waiter) es
  unfolding settled_weight selected_weight toward_all emitted settled_with
  fail-weight destination w [] = refl
  fail-weight destination w ((k, r) ∷ es) = elim (Option-cases (toward destination k r)) [
    | inl skip ↦ rw (skip, emitted, selected_weight) (fail-weight destination w es)
    | inr (x, hit) ↦
        rw (hit, emitted, selected_weight) (omega (arith, fail-weight destination w es))
  ]

  pub fail-Ends :
      (u : UnroutedUnicasts F W) (destination : Nwk)
      → IsSorted u.records
      → let acts =
          map
            (λ e. settled_with from e.1 SendFailure.route_discovery_timeout)
            (toward_all destination u.records.entries) in
        (fail from u destination
          ≡ some (
            record {
              records = others destination u.records;
              retries = (remove u.retries destination).0;
            },
            acts,
          ))
        × Keeps waiter_of on_loan Ok F E u.records
            (others destination u.records)
            acts
            (lent on_loan u.records)
  unfolding fail
  fail-Ends u destination s = (
    rw (route_lem u destination s, fail) refl,
    record {
      valid = books _ (others-IsSorted u.records destination s);
      loaned = λ k. no_loans _ k ∙ sym (no_loans _ k);
      conserved = λ w. omega (
        arith,
        total-others w u.records destination,
        fail-weight destination w u.records.entries,
      );
      known = λ k g. known-others u.records destination k s g;
    },
  )

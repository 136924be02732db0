-- ===== src/Spinel/Requests/Calls.antt =====
-- The calls of requests in crates/ziggurat-spinel/src/lib.rs as steps, and what a call must keep: the
-- state is valid, and every sender is still stored or leaves with a delivery.
use mathlib.Core.Option
use mathlib.Core.Option.{some-injective, some-ne-none}
use ziggurat.Base.{
  ℕ, ◌+◌, ◌≤◌, ◌≡◌, refl, Option, none, some, List, [], ◌∷◌, ◌++◌, map, if◌then◌else◌, arith, inl,
  inr, Option-cases,
}
use ziggurat.Base.Order.{nat_ord}
use ziggurat.FlatMap
use ziggurat.FlatMap.{FlatMap, get, contains_key, values}
use ziggurat.FlatMap.Sorted.{IsSorted}
use ziggurat.FlatMap.StaysSorted.{remove-IsSorted}
use ziggurat.FlatMap.Totals.{total, total_of, total-remove, remove_missing}
use ziggurat.Spinel.Frames.{SpinelFrame}
use ziggurat.Spinel.Requests.{
  Requests, Delivery, prepare_request, cancel_request, update, handle_inbound_frame,
}

pub data Event (W : Type 0) : Type 0 where
  prepare : ℕ → List ℕ → W → Event W
  cancel : ℕ → Event W
  inbound : SpinelFrame → Event W

abbrev pub admitted : {W : Type 0} → (W → ℕ) → Event W → ℕ
admitted x (Event.prepare command_id payload waiter) = x waiter
admitted x e = 0

module _ {W R : Type 0} where
  unfoldable pub step : Requests W R → Event W → Option (Requests W R × List (Delivery W R))
  step s (Event.prepare command_id payload waiter) =
      Option.map (λ x. (x.1, [])) (prepare_request s command_id payload waiter)
  step s (Event.cancel tid) = some (cancel_request s tid)
  step s (Event.inbound frame) = some (handle_inbound_frame s frame)

  -- The weight of the requests that are over.
  unfoldable pub finished : (W → ℕ) → List (Delivery W R) → ℕ
  finished x [] = 0
  finished x (Delivery.response waiter frame ∷ out) = x waiter + finished x out
  finished x (Delivery.dropped waiter ∷ out) = x waiter + finished x out
  finished x (Delivery.property_update receiver id value ∷ out) = finished x out
  finished x (Delivery.reset status ∷ out) = finished x out

  pub record IsValid (s : Requests W R) : Type 0 where
    pub sorted : IsSorted s.pending_frames
    pub first : 1 ≤ s.next_tid
    pub last : s.next_tid ≤ 7

  -- What a call keeps: the state is valid, and no request is lost.
  pub record Keeps (s t : Requests W R) (out : List (Delivery W R)) (more : (W → ℕ) → ℕ)
      : Type 0 where
    pub valid : IsValid t
    pub conserved :
        (x : W → ℕ) → total x s.pending_frames + more x ≡ total x t.pending_frames + finished x out

  pub finished-append :
      (x : W → ℕ) (a b : List (Delivery W R)) → finished x (a ++ b) ≡ finished x a + finished x b
  unfolding finished
  finished-append x [] b = omega arith
  finished-append x (Delivery.response w f ∷ a) b = omega (arith, finished-append x a b)
  finished-append x (Delivery.dropped w ∷ a) b = omega (arith, finished-append x a b)
  finished-append x (Delivery.property_update r i v ∷ a) b = finished-append x a b
  finished-append x (Delivery.reset status ∷ a) b = finished-append x a b

  pub finished_all :
      (x : W → ℕ) (es : List (ℕ × W)) (out : List (Delivery W R))
      → finished x (map Delivery.dropped (map (λ e. e.1) es) ++ out)
        ≡ total_of x es + finished x out
  unfolding finished total_of
  finished_all x [] out = omega arith
  finished_all x (e ∷ es) out = omega (arith, finished_all x es out)

  -- What was under an id is taken off, and leaves with a delivery.
  pub removed :
      (s : Requests W R) (tid : ℕ) (out : List (Delivery W R))
      → IsValid s
      → ((x : W → ℕ) (w : W) → get s.pending_frames tid ≡ some w → finished x out ≡ x w)
      → ((x : W → ℕ) → get s.pending_frames tid ≡ none → finished x out ≡ 0)
      → Keeps s (record s { pending_frames = (FlatMap.remove s.pending_frames tid).0 }) out (λ x. 0)
  removed s tid out v one nothing = record {
    valid = record {
      sorted = remove-IsSorted s.pending_frames tid v.sorted;
      first = v.first;
      last = v.last;
    };
    conserved = λ x. elim (Option-cases (get s.pending_frames tid)) [
      | inl gone ↦ omega (arith, remove_missing x s.pending_frames tid gone, nothing x gone)
      | inr (w, here) ↦ omega (arith, total-remove x s.pending_frames tid here, one x w here)
    ];
  }

  pub unchanged : (s : Requests W R) → IsValid s → Keeps s s [] (λ x. 0)
  unfolding finished
  unchanged s v = record { valid = v; conserved = λ x. omega arith }

  pub reset_weight :
      (x : W → ℕ) (s : Requests W R) (status : ℕ)
      → finished x (if s.has_reset_receiver then Delivery.reset status ∷ [] else []) ≡ 0
  unfolding finished
  reset_weight x s status = ground arith

  pub update_weight :
      (x : W → ℕ) (r : Option R) (id : ℕ) (value : List ℕ) → finished x (update r id value) ≡ 0
  unfolding finished
  update_weight x none id value = refl
  update_weight x (some r) id value = refl

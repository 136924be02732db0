-- ===== src/Spinel/Requests/Answers.antt =====
-- Histories of the calls of requests in crates/ziggurat-spinel/src/lib.rs.
use ziggurat.Base.{ℕ, ◌+◌, ◌≡◌, some, List, [], ◌∷◌, ◌++◌, arith}
use ziggurat.Base.Order.{nat_ord}
use ziggurat.FlatMap
use ziggurat.FlatMap.{FlatMap, get, contains_key, values}
use ziggurat.FlatMap.StaysSorted.{new-IsSorted}
use ziggurat.FlatMap.Totals.{total, total_of}
use ziggurat.Spinel.Requests.{Requests, Delivery, new}
use ziggurat.Spinel.Requests.Calls.{Event, admitted, step, finished, IsValid, finished-append}
use ziggurat.Spinel.Requests.Kept.{step-Keeps}

abbrev pub admitted_all : {W : Type 0} → (W → ℕ) → List (Event W) → ℕ
admitted_all x [] = 0
admitted_all x (e ∷ es) = admitted x e + admitted_all x es

module _ {W R : Type 0} where
  -- The calls from the first state on, none of which panics, with all deliveries.
  pub data History : Requests W R → List (Event W) → List (Delivery W R) → Type 0 where
    begin : History new [] []
    next :
        {s t : Requests W R} {es : List (Event W)} {out more : List (Delivery W R)}
        → History s es out
        → (e : Event W) → step s e ≡ some (t, more)
        → History t (e ∷ es) (out ++ more)

  pub History-IsValid :
      {s : Requests W R} {es : List (Event W)} {out : List (Delivery W R)}
      → History s es out
      → IsValid s
  History-IsValid History.begin = record {
    sorted = new-IsSorted ℕ W;
    first = omega arith;
    last = omega arith;
  }
  History-IsValid (History.next {s} h e run) = (step-Keeps s e (History-IsValid h) run).valid

  -- Over any history of requests, cancellations and inbound frames from the first state, none of
  -- which panics, and for any weight of senders, the weight of all requests made is that of the
  -- requests still pending and of those answered or dropped: no request is lost, and none is
  -- resolved twice.
  pub answered_once :
      {s : Requests W R} {es : List (Event W)} {out : List (Delivery W R)}
      → History s es out
      → (x : W → ℕ) → admitted_all x es ≡ total x s.pending_frames + finished x out
  unfolding total total_of FlatMap.new finished
  answered_once History.begin x = omega arith
  answered_once (History.next {s} {t} {es} {out} {more} h e run) x = omega (
    arith,
    (step-Keeps s e (History-IsValid h) run).conserved x,
    answered_once h x,
    finished-append x out more,
  )

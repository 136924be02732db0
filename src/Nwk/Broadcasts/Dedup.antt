-- ===== src/Nwk/Broadcasts/Dedup.antt =====
-- A broadcast is processed once: later copies are filtered until the transaction expires.
use ziggurat.Base.{
  ℕ, ◌≡◌, ◌<◌, ◌≤◌, Bool, true, false, Option, none, some, List, [], ◌∷◌, if◌then◌else◌, ltb, All,
  arith, inl, inr, Option-cases, ◌⊎◌,
}
use ziggurat.Types.{Nwk}
use ziggurat.Base.Order.{nat_ord, pair_ord, key_eq}
use ziggurat.FlatMap
use ziggurat.FlatMap.{FlatMap}
use ziggurat.FlatMap.Sorted.{IsSorted}
use ziggurat.FlatMap.StaysSorted.{insert-IsSorted, retain-IsSorted, modify-IsSorted}
use ziggurat.FlatMap.Laws.{get-insert, get-retain, get-modify}
use ziggurat.Time.{later}
use ziggurat.Nwk.Broadcasts.{
  fresh_transaction, Transaction, Broadcasts, expire, hear, filter_received,
}
use mathlib.Core.Option

-- The expiration time of a transaction that is known.
abbrev pub deadline : Broadcasts → Nwk × ℕ → Option ℕ
deadline table key = Option.map (λ t. t.expiration_time) (FlatMap.get table key)

pub get-expire :
    (table : Broadcasts) (now : ℕ) (key : Nwk × ℕ)
    → IsSorted table
    → FlatMap.get (expire table now) key
      ≡ Option.bind
          (FlatMap.get table key)
          (λ t. if ltb now t.expiration_time then some t else none)
unfolding Option.bind
get-expire table now key s =
    ground (arith, get-retain (λ _ t. (t, ltb now t.expiration_time)) table key s)

expire-IsSorted : (table : Broadcasts) (now : ℕ) → IsSorted table → IsSorted (expire table now)
expire-IsSorted table now s = retain-IsSorted (λ _ t. (t, ltb now t.expiration_time)) table s

-- One received copy: its frame, and the time.
pub record Copy : Type 0 where
  pub source : Nwk
  pub sequence_number : ℕ
  pub sender : Nwk
  pub audience : List Nwk
  pub now : ℕ
  pub delivery_time : ℕ

abbrev pub key_of : Copy → Nwk × ℕ
key_of c = (c.source, c.sequence_number)

abbrev pub receive : Broadcasts → Copy → Broadcasts × Bool
receive table c =
    filter_received table c.source c.sequence_number c.sender c.audience c.now c.delivery_time

-- The two outcomes: an unexpired transaction is heard again, or a new one stands.
pub receive_cases :
    (table : Broadcasts) (c : Copy)
    → IsSorted table
    → ((t : Transaction) × (FlatMap.get table (key_of c) ≡ some t)
        × (c.now < t.expiration_time)
        × (receive table c
            ≡ (FlatMap.modify (expire table c.now) (key_of c) (hear c.sender), true)))
      ⊎ (((t : Transaction) → FlatMap.get table (key_of c) ≡ some t → t.expiration_time ≤ c.now)
          × (receive table c ≡ (
            (FlatMap.insert
                (expire table c.now)
                (key_of c)
                (fresh_transaction c.sender c.audience c.now c.delivery_time)).0,
            false,
          )))
unfolding filter_received Option.bind
receive_cases table c s = elim (Option-cases (FlatMap.get (expire table c.now) (key_of c))) [
  | inl e ↦
      inr (λ t g. ground (arith, get-expire table c.now (key_of c) s), rw (e, filter_received))
  | inr (t, e) ↦ inl (
    t,
    ground (arith, get-expire table c.now (key_of c) s),
    ground (arith, get-expire table c.now (key_of c) s),
    rw (e, filter_received),
  )
]

pub receive-IsSorted :
    (table : Broadcasts) (c : Copy) → IsSorted table → IsSorted (receive table c).0
receive-IsSorted table c s = elim (receive_cases table c s) [
  | inl (t, _, _, e) ↦ rw e (
      modify-IsSorted (expire table c.now) (key_of c) (hear c.sender)
        (expire-IsSorted table c.now s))
  | inr (_, e) ↦ rw e (
      insert-IsSorted (expire table c.now) (key_of c)
        (fresh_transaction c.sender c.audience c.now c.delivery_time)
        (expire-IsSorted table c.now s))
]

-- A transaction that has not expired keeps its deadline.
pub deadline-receive :
    (table : Broadcasts) (c : Copy) (key : Nwk × ℕ) {d : ℕ}
    → IsSorted table
    → deadline table key ≡ some d
    → c.now < d
    → deadline (receive table c).0 key ≡ some d
unfolding Option.bind
deadline-receive table c key {d} s e h =
    let (u, g, at) =
      (Option.map-eq-some_iff (λ t. t.expiration_time) (FlatMap.get table key)).0 e in
    elim (receive_cases table c s) [
      | inl (t, _, _, r) ↦ rw r (
          ground (
            arith,
            get-modify (expire table c.now) (key_of c) key (hear c.sender),
            get-expire table c.now key s,
          ))
      | inr (old, r) ↦
          let apart : key_eq (key_of c) key ≡ true → ⊥ = λ same.
            ground (arith, old u (rw (pair_ord.eq_of_cmp (key_of c) key (ground arith)) g)) in
          rw r (
            ground (
              arith,
              apart,
              get-insert (expire table c.now) (key_of c) key
                  (fresh_transaction c.sender c.audience c.now c.delivery_time),
              get-expire table c.now key s,
            ))
    ]

-- A copy is answered as known exactly where its transaction has not expired.
pub receive_known :
    (table : Broadcasts) (c : Copy) {d : ℕ}
    → IsSorted table
    → deadline table (key_of c) ≡ some d
    → c.now < d
    → (receive table c).1 ≡ true
receive_known table c s e h = elim (receive_cases table c s) [
  | inl (t, _, _, r) ↦ rw r
  | inr (old, r) ↦
      let (u, g, at) =
        (Option.map-eq-some_iff (λ t. t.expiration_time) (FlatMap.get table (key_of c))).0 e in
      absurd (ground (arith, old u g))
]

-- A fresh copy's transaction lasts for the delivery time.
pub deadline-receive_fresh :
    (table : Broadcasts) (c : Copy)
    → IsSorted table
    → (receive table c).1 ≡ false
    → deadline (receive table c).0 (key_of c) ≡ some (later c.now c.delivery_time)
deadline-receive_fresh table c s e = elim (receive_cases table c s) [
  | inl (t, _, _, r) ↦ absurd (ground (arith, r))
  | inr (old, r) ↦ rw r (
      ground (
        arith,
        get-insert (expire table c.now) (key_of c) (key_of c)
            (fresh_transaction c.sender c.audience c.now c.delivery_time),
        pair_ord.cmp_refl (key_of c),
      ))
]

-- The answers to a history of received copies.
unfoldable pub receive_all : Broadcasts → List Copy → Broadcasts × List (Copy × Bool)
receive_all table [] = (table, [])
receive_all table (c ∷ cs) =
    let (next, known) = receive table c in
    let (last, rest) = receive_all next cs in (last, (c, known) ∷ rest)

-- While a transaction lasts, no later copy of its broadcast counts as fresh.
pub All-known :
    (table : Broadcasts) (key : Nwk × ℕ) (d : ℕ) (cs : List Copy)
    → IsSorted table
    → deadline table key ≡ some d
    → All (λ c. c.now < d) cs
    → All (λ a. key_of a.0 ≡ key → a.1 ≡ true) (receive_all table cs).1
unfolding receive_all
All-known table key d [] s e h = tt
All-known table key d (c ∷ cs) s e h = (
  λ same. receive_known table c s (rw same e) h.0,
  All-known (receive table c).0 key d cs (receive-IsSorted table c s)
      (deadline-receive table c key s e h.0) h.1,
)

-- Once a copy of a broadcast was answered as fresh from a sorted table, every copy of it in any
-- later history of copies received before the delivery time is over is answered as known, whatever
-- other broadcasts are among them.
pub processed_once :
    (table : Broadcasts) (c : Copy) (cs : List Copy)
    → IsSorted table
    → (receive table c).1 ≡ false
    → All (λ b. b.now < later c.now c.delivery_time) cs
    → All (λ a. key_of a.0 ≡ key_of c → a.1 ≡ true) (receive_all (receive table c).0 cs).1
processed_once table c cs s fresh h =
    All-known (receive table c).0 (key_of c) (later c.now c.delivery_time) cs
      (receive-IsSorted table c s) (deadline-receive_fresh table c s fresh) h

-- ===== src/Nwk/Broadcasts/Receipts.antt =====
-- A received copy of a broadcast, and the quorum of its relayers.
use mathlib.Core.Option
use ziggurat.Base.{
  ℕ, ◌≡◌, ◌<◌, ◌≤◌, refl, Bool, true, false, some, List, [], ◌∷◌, All, filterb, length, arith, inl,
  inr, Option-cases,
}
use ziggurat.Types.{Nwk}
use ziggurat.Base.Order.{nat_ord, pair_ord, key_eq}
use ziggurat.FlatMap
use ziggurat.FlatMap.{FlatMap}
use ziggurat.FlatMap.Sorted.{IsSorted}
use ziggurat.FlatMap.Laws.{get-modify, get-insert}
use ziggurat.FlatMap.Set
use ziggurat.FlatMap.Set.{contains-insert, contains-empty}
use ziggurat.Nwk.Broadcasts.{
  fresh_transaction, Transaction, Broadcasts, contains, expire, hear, quorum_heard, passively_acked,
}
use ziggurat.Nwk.Broadcasts.Dedup.{Copy, key_of, receive, receive_cases, get-expire}
use mathlib.Core.Option.{some-injective}

module _ {ℓ} {A : Type ℓ} where
  length-filterb_mono :
      (p q : A → Bool) (xs : List A)
      → ((x : A) → p x ≡ true → q x ≡ true)
      → length (filterb p xs) ≤ length (filterb q xs)
  length-filterb_mono p q [] h = omega arith
  length-filterb_mono p q (x ∷ xs) h = ground (arith, h x, length-filterb_mono p q xs h)

  length-filterb-All :
      (p : A → Bool) (xs : List A) → All (λ x. p x ≡ true) xs → length (filterb p xs) ≡ length xs
  length-filterb-All p [] a = refl
  length-filterb-All p (x ∷ xs) a = ground (arith, length-filterb-All p xs a.1)

-- Hearing one more relayer keeps a quorum that was heard.
quorum_heard-hear :
    (t : Transaction) (sender : Nwk) (live : List Nwk) (quorum : ℕ)
    → quorum_heard t live quorum ≡ true
    → quorum_heard (hear sender t) live quorum ≡ true
unfolding quorum_heard
quorum_heard-hear t sender live quorum h = ground (
  arith,
  length-filterb_mono (Set.contains t.heard_from) (Set.contains (hear sender t).heard_from)
      (filterb (contains live) t.expected_relayers)
      (λ x e. ground (arith, contains-insert t.heard_from sender x)),
)

-- A duplicate copy, received while the transaction lasts, never takes an acknowledgment back.
passively_acked-receive :
    (table : Broadcasts) (c : Copy) (live : List Nwk) (quorum : ℕ)
    → IsSorted table
    → (receive table c).1 ≡ true
    → passively_acked table c.source c.sequence_number live quorum ≡ true
    → passively_acked (receive table c).0 c.source c.sequence_number live quorum ≡ true
unfolding passively_acked Option.bind
passively_acked-receive table c live quorum s known h = elim (receive_cases table c s) [
  | inl (t, g, l, r) ↦ rw r (
      ground (
        arith,
        g,
        get-modify (expire table c.now) (key_of c) (key_of c) (hear c.sender),
        get-expire table c.now (key_of c) s,
        pair_ord.cmp_refl (key_of c),
        quorum_heard-hear t c.sender live quorum,
      ))
  | inr (_, r) ↦ absurd (ground (arith, r))
]

-- Once every live member of the audience was heard, the broadcast is acknowledged.
pub passively_acked-All :
    (table : Broadcasts) (source : Nwk) (seq : ℕ) (live : List Nwk) (quorum : ℕ)
    → ((t : Transaction)
        → FlatMap.get table (source, seq) ≡ some t
        → All
            (λ n. Set.contains t.heard_from n ≡ true)
            (filterb (contains live) t.expected_relayers))
    → passively_acked table source seq live quorum ≡ true
unfolding passively_acked quorum_heard
passively_acked-All table source seq live quorum h =
    elim (Option-cases (FlatMap.get table (source, seq))) [
      | inl e ↦ rw (e, passively_acked)
      | inr (t, e) ↦ ground (
        arith,
        e,
        length-filterb-All (Set.contains t.heard_from) (filterb (contains live) t.expected_relayers)
            (h t e),
      )
    ]

pub get-receive_self :
    (table : Broadcasts) (c : Copy) (t : Transaction)
    → IsSorted table
    → FlatMap.get table (key_of c) ≡ some t
    → c.now < t.expiration_time
    → FlatMap.get (receive table c).0 (key_of c) ≡ some (hear c.sender t)
unfolding Option.bind
get-receive_self table c t s g h = elim (receive_cases table c s) [
  | inl (u, k, l, r) ↦ rw r (
      ground (
        arith,
        get-modify (expire table c.now) (key_of c) (key_of c) (hear c.sender),
        get-expire table c.now (key_of c) s,
        pair_ord.cmp_refl (key_of c),
      ))
  | inr (old, r) ↦ absurd (ground (arith, old t g))
]

pub get-receive_other :
    (table : Broadcasts) (c : Copy) (key : Nwk × ℕ) (t : Transaction)
    → IsSorted table
    → FlatMap.get table key ≡ some t
    → c.now < t.expiration_time
    → key_eq (key_of c) key ≡ false
    → FlatMap.get (receive table c).0 key ≡ some t
unfolding Option.bind
get-receive_other table c key t s g h apart = elim (receive_cases table c s) [
  | inl (u, k, l, r) ↦ rw r (
      ground (
        arith,
        get-modify (expire table c.now) (key_of c) key (hear c.sender),
        get-expire table c.now key s,
      ))
  | inr (old, r) ↦ rw r (
      ground (
        arith,
        get-insert (expire table c.now) (key_of c) key
            (fresh_transaction c.sender c.audience c.now c.delivery_time),
        get-expire table c.now key s,
      ))
]

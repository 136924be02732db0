-- ===== src/Nwk/Broadcasts/Acks.antt =====
-- Passive acknowledgments of nwk/broadcasts.rs: what counts toward the quorum over a history.
use ziggurat.Base.{
  ℕ, All-map, subst, sym, ◌∙◌, ◌&&◌, ◌≡◌, ◌<◌, refl, Bool, true, some, List, [], ◌∷◌, ◌==◌, All,
  any, filterb, arith, inl, inr, Bool-cases,
}
use ziggurat.Types.{Nwk}
use ziggurat.Base.Order.{nat_ord, pair_ord, key_eq}
use ziggurat.FlatMap
use ziggurat.FlatMap.{FlatMap}
use ziggurat.FlatMap.Sorted.{IsSorted}
use ziggurat.FlatMap.Set
use ziggurat.FlatMap.Set.{contains-insert, contains-empty}
use ziggurat.Nwk.Broadcasts.{Transaction, Broadcasts, contains, hear, passively_acked}
use ziggurat.Nwk.Broadcasts.Dedup.{Copy, key_of, receive, receive_all, receive-IsSorted}
use mathlib.Core.Option.{some-injective}
use ziggurat.Nwk.Broadcasts.Receipts.{passively_acked-All, get-receive_self, get-receive_other}

-- What later copies do to a transaction: its audience and deadline stay, and more is heard.
record Grown (t u : Transaction) : Type 0 where
  pub audience : u.expected_relayers ≡ t.expected_relayers
  pub until : u.expiration_time ≡ t.expiration_time
  pub more : (n : Nwk) → Set.contains t.heard_from n ≡ true → Set.contains u.heard_from n ≡ true

Grown-refl : (t : Transaction) → Grown t t
Grown-refl t = record { audience = refl; until = refl; more = λ n h. h }

Grown-hear : (t : Transaction) (n : Nwk) → Grown t (hear n t)
Grown-hear t n = record {
  audience = refl;
  until = refl;
  more = λ m h. ground (arith, contains-insert t.heard_from n m);
}

Grown-trans : {t u v : Transaction} → Grown t u → Grown u v → Grown t v
Grown-trans g h = record {
  audience = h.audience ∙ g.audience;
  until = h.until ∙ g.until;
  more = λ n e. h.more n (g.more n e);
}

-- The copy carries the broadcast `key`, from the relayer `n`.
abbrev pub relays_from : Nwk × ℕ → Nwk → Copy → Bool
relays_from key n c = key_eq (key_of c) key && (c.sender == n)

-- One copy, received while the transaction lasts: it grows, and a copy of its own is heard.
grow :
    (table : Broadcasts) (c : Copy) (key : Nwk × ℕ) (t : Transaction)
    → IsSorted table
    → FlatMap.get table key ≡ some t
    → c.now < t.expiration_time
    → (u : Transaction) × (FlatMap.get (receive table c).0 key ≡ some u)
      × Grown t u
      × ((n : Nwk) → relays_from key n c ≡ true → Set.contains u.heard_from n ≡ true)
grow table c key t s g h = elim (Bool-cases (key_eq (key_of c) key)) [
  | inl same ↦
      let e : key_of c ≡ key = pair_ord.eq_of_cmp (key_of c) key (ground arith) in
      (
        hear c.sender t,
        subst (λ k. FlatMap.get (receive table c).0 k ≡ some (hear c.sender t)) e
            (get-receive_self table c t s (rw e g) h),
        Grown-hear t c.sender,
        λ n r. ground (arith, contains-insert t.heard_from c.sender n),
      )
  | inr apart ↦
      (t, get-receive_other table c key t s g h apart, Grown-refl t, λ n r. ground (arith, apart))
]

-- Over a history within the lifetime, every relayer that sent a copy is heard.
grow-All :
    (table : Broadcasts) (cs : List Copy) (key : Nwk × ℕ) (t : Transaction)
    → IsSorted table
    → FlatMap.get table key ≡ some t
    → All (λ c. c.now < t.expiration_time) cs
    → (u : Transaction) × (FlatMap.get (receive_all table cs).0 key ≡ some u)
      × Grown t u
      × ((n : Nwk) → any (relays_from key n) cs ≡ true → Set.contains u.heard_from n ≡ true)
unfolding receive_all
grow-All table [] key t s g h = (t, g, Grown-refl t, λ n r. absurd (cc))
grow-All table (c ∷ cs) key t s g h =
    let (u, gu, grown, heard) = grow table c key t s g h.0 in
    let (v, gv, further, rest) =
      grow-All (receive table c).0 cs key u (receive-IsSorted table c s) gu
        (All-map (λ b l. rw grown.until l) cs h.1) in
    (
      v,
      gv,
      Grown-trans grown further,
      λ n r. elim (Bool-cases (relays_from key n c)) [
        | inl now ↦ further.more n (heard n now)
        | inr later ↦ rest n (ground (arith, later))
      ],
    )

-- For a transaction of a sorted table: if copies that all arrive before it expires include one
-- from each live member of its audience, the broadcast is passively acknowledged after them, at
-- any quorum.
pub relayed-acked :
    (table : Broadcasts) (cs : List Copy) (source : Nwk) (seq : ℕ) (t : Transaction)
    (live : List Nwk) (quorum : ℕ)
    → IsSorted table
    → FlatMap.get table (source, seq) ≡ some t
    → All (λ c. c.now < t.expiration_time) cs
    → All
        (λ n. any (relays_from (source, seq) n) cs ≡ true)
        (filterb (contains live) t.expected_relayers)
    → passively_acked (receive_all table cs).0 source seq live quorum ≡ true
relayed-acked table cs source seq t live quorum s g within relayed =
    let (u, gu, grown, heard) = grow-All table cs (source, seq) t s g within in
    passively_acked-All (receive_all table cs).0 source seq live quorum (λ v gv.
      let same : u ≡ v = some-injective u v (sym gu ∙ gv) in
      subst
        (λ w.
          All (λ n. Set.contains w.heard_from n ≡ true)
            (filterb (contains live) w.expected_relayers))
        same
        (rw (grown.audience) (All-map heard (filterb (contains live) t.expected_relayers) relayed)))

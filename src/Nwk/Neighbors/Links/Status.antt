-- ===== src/Nwk/Neighbors/Links/Status.antt =====
-- What a link status command does to the sender's link.
use ziggurat.Base.{
  ℕ, ◌≡◌, ◌≢◌, refl, sym, ◌∙◌, ap, Bool, true, false, none, some, List, [], ◌∷◌, if◌then◌else◌,
  ◌==◌, ltb, ◌&&◌, filterb, last, inl, inr, Bool-cases, arith,
}
use ziggurat.Base.Order.{nat_ord}
use ziggurat.Types.{Nwk, Eui64}
use ziggurat.FlatMap
use ziggurat.FlatMap.{FlatMap}
use ziggurat.FlatMap.Set.{FlatSet}
use ziggurat.FlatMap.Laws.{get-modify, get-or_insert}
use ziggurat.FlatMap.Everywhere.{key_eq_self}
use ziggurat.RingBuffer.{push}
use ziggurat.Nwk.Neighbors.{Neighbors, TableEntry, is_end_device}
use ziggurat.Nwk.Neighbors.Links.{
  NwkLinkStatus, NwkLinkStatusCommand, connected, new_sibling, corrected, restarted, counted,
  listed, digest, updated, samples_or, on_link_status,
}

-- The cost that the last listing of an address gives, or another cost where none lists it.
abbrev pub listed_cost : Nwk → List NwkLinkStatus → ℕ → ℕ
listed_cost address links other = elim (last (filterb (λ l. l.address == address) links)) [
  | none ↦ other
  | some l ↦ l.incoming_cost
]

last_or :
    (x : NwkLinkStatus) (xs : List NwkLinkStatus) (c : ℕ)
    → elim (last (x ∷ xs)) [ none ↦ c | some l ↦ l.incoming_cost ]
      ≡ elim (last xs) [ none ↦ x.incoming_cost | some l ↦ l.incoming_cost ]
last_or x [] c = refl
last_or x (y ∷ ys) c = last_or y ys c ∙ sym (last_or y ys x.incoming_cost)

filterb_cons :
    (p : NwkLinkStatus → Bool) (l : NwkLinkStatus) (ls : List NwkLinkStatus) (c : ℕ)
    → elim (last (filterb p (l ∷ ls))) [ none ↦ c | some x ↦ x.incoming_cost ]
      ≡ elim (last (filterb p ls)) [
        | none ↦ (if p l then l.incoming_cost else c)
        | some x ↦ x.incoming_cost
      ]
filterb_cons p l ls c = by_test (p l)
  where
    by_test :
        (b : Bool)
        → elim (last (if b then l ∷ filterb p ls else filterb p ls)) [
          | none ↦ c
          | some x ↦ x.incoming_cost
        ]
          ≡ elim (last (filterb p ls)) [
            | none ↦ (if b then l.incoming_cost else c)
            | some x ↦ x.incoming_cost
          ]
    by_test true = last_or l (filterb p ls) c
    by_test false = refl

listed_cost-cons :
    (address : Nwk) (l : NwkLinkStatus) (ls : List NwkLinkStatus) (c : ℕ)
    → listed_cost address (l ∷ ls) c
      ≡ listed_cost address ls (if l.address == address then l.incoming_cost else c)
listed_cost-cons address l ls c = filterb_cons (λ x. x.address == address) l ls c

-- What the digestion leaves as it was, and the cost that it ends with.
pub record Digested (own : Nwk) (links : List NwkLinkStatus) (e f : TableEntry) : Type 0 where
  pub cost : f.outgoing_cost ≡ listed_cost own links e.outgoing_cost
  pub address : f.network_address ≡ e.network_address
  pub heard_at : f.last_link_status_timestamp ≡ e.last_link_status_timestamp
  pub kind : f.device_type ≡ e.device_type
  pub owner : f.extended_address ≡ e.extended_address

one_link :
    (own : Nwk) (known : FlatSet Nwk) (l : NwkLinkStatus) (e : TableEntry)
    → let f = listed own l (counted known l e) in
      (f.outgoing_cost ≡ (if l.address == own then l.incoming_cost else e.outgoing_cost))
      × (f.network_address ≡ e.network_address)
      × (f.last_link_status_timestamp ≡ e.last_link_status_timestamp)
      × (f.device_type ≡ e.device_type)
      × (f.extended_address ≡ e.extended_address)
one_link own known l e = elim (Bool-cases (ltb 0 l.outgoing_cost)) [
  | inl counts ↦ elim (Bool-cases (l.address == own)) [
    | inl ours ↦ rw (counts, ours) (refl, refl, refl, refl, refl)
    | inr other ↦ rw (counts, other) (refl, refl, refl, refl, refl)
  ]
  | inr silent ↦ elim (Bool-cases (l.address == own)) [
    | inl ours ↦ rw (silent, ours) (refl, refl, refl, refl, refl)
    | inr other ↦ rw (silent, other) (refl, refl, refl, refl, refl)
  ]
]

pub digest-Digested :
    (own : Nwk) (known : FlatSet Nwk) (links : List NwkLinkStatus) (e : TableEntry)
    → Digested own links e (digest own known links e)
unfolding digest
digest-Digested own known [] e = record {
  cost = refl;
  address = refl;
  heard_at = refl;
  kind = refl;
  owner = refl;
}
digest-Digested own known (l ∷ ls) e =
    let f = listed own l (counted known l e) in
    let (cost, address, heard_at, kind, owner) = one_link own known l e in
    let d = digest-Digested own known ls f in
    record {
      cost =
          d.cost ∙ ap (listed_cost own ls) cost ∙ sym (listed_cost-cons own l ls e.outgoing_cost);
      address = d.address ∙ address;
      heard_at = d.heard_at ∙ heard_at;
      kind = d.kind ∙ kind;
      owner = d.owner ∙ owner;
    }

-- The entry that a command finds: the sender's, or the one made for it.
abbrev pub found_entry : Neighbors → Eui64 → Nwk → ℕ → ℕ → TableEntry
found_entry n source_ieee source_nwk lqi now =
    (FlatMap.or_insert n.table source_ieee (
      new_sibling source_ieee source_nwk
        (push (samples_or (FlatMap.remove n.pending_lqas source_nwk).1) lqi) now)).1

pub updated-Digested :
    (own : Nwk) (known : FlatSet Nwk) (command : NwkLinkStatusCommand) (now : ℕ) (e : TableEntry)
    → let f = updated own known command now e in
      (f.outgoing_cost
        ≡ listed_cost own command.link_statuses
            (if command.is_first_frame then 0 else e.outgoing_cost))
      × (f.network_address ≡ e.network_address)
      × (f.last_link_status_timestamp ≡ now)
      × (is_end_device f.device_type ≡ false)
      × (f.extended_address ≡ e.extended_address)
unfolding updated
updated-Digested own known command now e =
    let before =
      restarted command.is_first_frame
        (record (corrected e) { last_link_status_timestamp = now }) in
    let d = digest-Digested own known command.link_statuses before in
    let (cost, address, at, kind, owner) = start command.is_first_frame in
    (
      d.cost ∙ ap (listed_cost own command.link_statuses) cost,
      d.address ∙ address,
      d.heard_at ∙ at,
      ap is_end_device d.kind ∙ kind,
      d.owner ∙ owner,
    )
  where
    start :
        (first : Bool)
        → let b = restarted first (record (corrected e) { last_link_status_timestamp = now }) in
          (b.outgoing_cost ≡ (if first then 0 else e.outgoing_cost))
          × (b.network_address ≡ e.network_address)
          × (b.last_link_status_timestamp ≡ now)
          × (is_end_device b.device_type ≡ false)
          × (b.extended_address ≡ e.extended_address)
    start true = elim (Bool-cases (is_end_device e.device_type)) [
      | inl wrong ↦ rw wrong (refl, refl, refl, refl, refl)
      | inr right ↦ rw right (refl, refl, refl, right, refl)
    ]
    start false = elim (Bool-cases (is_end_device e.device_type)) [
      | inl wrong ↦ rw wrong (refl, refl, refl, refl, refl)
      | inr right ↦ rw right (refl, refl, refl, right, refl)
    ]

-- After a link status command the sender has an entry that was heard now and is no end device,
-- under the network address it had, with the cost that the last listing of our address gives, or
-- else zero for a first frame and the old cost for a later one; the answer is its address exactly
-- if the cost fell from above zero to zero; every other entry is unchanged.
pub on_link_status_link :
    (n : Neighbors) (own : Nwk) (source_ieee : Eui64) (source_nwk : Nwk) (lqi : ℕ)
    (command : NwkLinkStatusCommand) (now : ℕ)
    → let old = found_entry n source_ieee source_nwk lqi now in
      let cost =
        listed_cost own command.link_statuses
          (if command.is_first_frame then 0 else old.outgoing_cost) in
      let (m, lost) = on_link_status n own source_ieee source_nwk lqi command now in
      ((f : TableEntry) × (FlatMap.get m.table source_ieee ≡ some f)
        × (f.outgoing_cost ≡ cost)
        × (f.network_address ≡ old.network_address)
        × (f.last_link_status_timestamp ≡ now)
        × (is_end_device f.device_type ≡ false))
      × (lost ≡ (if ltb 0 old.outgoing_cost && (cost == 0) then some old.network_address else none))
      × ((k : Eui64) → k ≢ source_ieee → FlatMap.get m.table k ≡ FlatMap.get n.table k)
unfolding on_link_status
on_link_status_link n own source_ieee source_nwk lqi command now =
    let old = found_entry n source_ieee source_nwk lqi now in
    let known = connected n in
    let d = updated-Digested own known command now old in
    let new =
      new_sibling source_ieee source_nwk
        (push (samples_or (FlatMap.remove n.pending_lqas source_nwk).1) lqi) now in
    let table = (FlatMap.or_insert n.table source_ieee new).0 in
    let change : TableEntry → TableEntry = updated own known command now in
    let present : FlatMap.get table source_ieee ≡ some old =
      get-or_insert n.table source_ieee source_ieee new ∙ rw (key_eq_self source_ieee) refl in
    (
      (
        change old,
        get-modify table source_ieee source_ieee change
            ∙ rw (key_eq_self source_ieee, present) refl,
        d.0,
        d.1,
        d.2,
        d.3,
      ),
      rw (d.0, d.1) refl,
      λ k apart. ground (
        arith,
        apart,
        get-modify table source_ieee k change,
        get-or_insert n.table source_ieee k new,
      ),
    )

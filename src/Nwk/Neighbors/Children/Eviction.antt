-- ===== src/Nwk/Neighbors/Children/Eviction.antt =====
-- The sweep over the keepalive deadlines: what it evicts, and when it has to run.
use ziggurat.Base.{
  ℕ, min, ◌≡◌, ◌↔◌, refl, sym, ◌∙◌, subst, Bool, true, false, Option, none, some, List, [], ◌∷◌,
  map, if◌then◌else◌, ◌==◌, leb, ◌&&◌, filterb, any, any-map, any-filterb, inl, inr, Option-cases,
  Bool-cases, arith,
}
use ziggurat.Base.Order.{nat_ord}
use ziggurat.Types.{Nwk, Eui64}
use ziggurat.FlatMap
use ziggurat.FlatMap.{FlatMap}
use ziggurat.FlatMap.Sorted.{IsSorted}
use ziggurat.FlatMap.StaysSorted.{remove-IsSorted}
use ziggurat.FlatMap.Laws.{get-remove}
use ziggurat.FlatMap.Entries.{any-values, any_of_get}
use ziggurat.FlatMap.Everywhere.{Everywhere}
use ziggurat.Nwk.Neighbors.{Neighbors, NeighborTable, TableEntry, is_end_device_child, addresses}
use ziggurat.Nwk.Neighbors.Children.{
  is_timed_out, remove_all, evict_timed_out_children, minimum, next_child_timeout,
}
use mathlib.Core.Option
use mathlib.Core.Option.{some-injective}
use ziggurat.Base.{◌⊎◌, ◌≤◌, ap}
use ziggurat.Nwk.Neighbors.{Relationship, NwkDeviceType, is_end_device}

-- Each entry stands under its own extended address.
abbrev pub Keyed : NeighborTable → Type 0
Keyed table = Everywhere (λ k e. e.extended_address ≡ k) table

get-remove_all :
    (table : NeighborTable) (gone : List (Eui64 × Nwk)) (k : Eui64)
    → IsSorted table
    → FlatMap.get (remove_all table gone) k
      ≡ (if any (λ a. a.0 == k) gone then none else FlatMap.get table k)
unfolding remove_all
get-remove_all table [] k s = refl
get-remove_all table (a ∷ rest) k s = ground (
  arith,
  get-remove_all (FlatMap.remove table a.0).0 rest k (remove-IsSorted table a.0 s),
  get-remove table a.0 k s,
)

-- The sweep drops the entry under `k`.
abbrev is_evicted : ℕ → NeighborTable → Eui64 → Bool
is_evicted now table k =
    any (λ e. is_timed_out now e && (e.extended_address == k)) (FlatMap.values table)

is_evicted-get :
    (table : NeighborTable) (now : ℕ) (k : Eui64) (e : TableEntry)
    → IsSorted table
    → Keyed table
    → FlatMap.get table k ≡ some e
    → is_evicted now table k ≡ is_timed_out now e
is_evicted-get table now k e s keyed g = elim (Bool-cases (is_timed_out now e)) [
  | inl over ↦
      any_of_get (λ x. is_timed_out now x && (x.extended_address == k)) table k e g
        (ground (arith, over, keyed k e g))
      ∙ sym over
  | inr on ↦ elim (Bool-cases (is_evicted now table k)) [
    | inr stays ↦ stays ∙ sym on
    | inl gone ↦
        let (j, x, gx, p) =
          any-values (λ x. is_timed_out now x && (x.extended_address == k)) table s gone in
        let same : j ≡ k = sym (keyed j x gx) ∙ ground (arith, p) in
        absurd (ground (arith, on, p, g, subst (λ i. FlatMap.get table i ≡ some x) same gx))
  ]
]

-- What the sweep leaves under an address.
get-evict_timed_out_children :
    (n : Neighbors) (now : ℕ) (k : Eui64)
    → IsSorted n.table
    → Keyed n.table
    → FlatMap.get (evict_timed_out_children n now).0.table k
      ≡ Option.bind (FlatMap.get n.table k) (λ e. if is_timed_out now e then none else some e)
unfolding evict_timed_out_children Option.bind
get-evict_timed_out_children n now k s keyed =
    let evicted = map addresses (filterb (is_timed_out now) (FlatMap.values n.table)) in
    let listed : any (λ a. a.0 == k) evicted ≡ is_evicted now n.table k =
      any-map addresses (λ a. a.0 == k) (filterb (is_timed_out now) (FlatMap.values n.table))
      ∙ any-filterb (is_timed_out now) (λ e. e.extended_address == k) (FlatMap.values n.table) in
    get-remove_all n.table evicted k s ∙ elim (Option-cases (FlatMap.get n.table k)) [
      | inl missing ↦ ground (arith, missing)
      | inr (e, g) ↦ ground (arith, g, listed, is_evicted-get n.table now k e s keyed g)
    ]

-- The earliest deadline has passed.
abbrev pub is_due : ℕ → Option ℕ → Bool
is_due now none = false
is_due now (some t) = leb t now

due_cons :
    (now x : ℕ) (rest : Option ℕ)
    → is_due now (elim rest [ none ↦ some x | some y ↦ some (min x y) ])
      ≡ (if leb x now then true else is_due now rest)
due_cons now x none = ground arith
due_cons now x (some y) = ground arith

due-minimum :
    (es : List TableEntry) (now : ℕ)
    → is_due now (minimum (map (λ e. e.timeout_at) (filterb is_end_device_child es)))
      ≡ any (is_timed_out now) es
unfolding minimum
due-minimum [] now = refl
due-minimum (x ∷ es) now = elim (Bool-cases (is_end_device_child x)) [
  | inl ours ↦
      rw (ours, minimum)
        (due_cons now x.timeout_at
            (minimum (map (λ e. e.timeout_at) (filterb is_end_device_child es)))
          ∙ ground (arith, due-minimum es now))
  | inr other ↦ rw other (due-minimum es now)
]

filterb_nil :
    (p : TableEntry → Bool) (es : List TableEntry)
    → (map addresses (filterb p es) ≡ []) ↔ (any p es ≡ false)
filterb_nil p [] = (λ _. refl, λ _. refl)
filterb_nil p (x ∷ es) = elim (Bool-cases (p x)) [
  | inl holds ↦ rw holds (λ e. absurd (cc), λ e. absurd (cc))
  | inr fails ↦ rw fails (filterb_nil p es)
]

-- An eviction finds no child exactly if the next child timeout, if there is one, has not passed
-- yet.
pub next_child_timeout_due :
    (n : Neighbors) (now : ℕ)
    → ((evict_timed_out_children n now).1 ≡ []) ↔ (is_due now (next_child_timeout n) ≡ false)
unfolding evict_timed_out_children next_child_timeout
next_child_timeout_due n now =
    let due = due-minimum (FlatMap.values n.table) now in
    let none_left = filterb_nil (is_timed_out now) (FlatMap.values n.table) in
    (λ e. due ∙ none_left.0 e, λ e. none_left.1 (sym due ∙ e))

-- An end device child whose deadline has passed.
pub record IsExpired (now : ℕ) (e : TableEntry) : Type 0 where
  pub is_ours :
      (e.relationship ≡ Relationship.child) ⊎ (e.relationship ≡ Relationship.unauthenticated_child)
  pub sleeps : e.device_type ≡ NwkDeviceType.end_device
  pub passed : e.timeout_at ≤ now

child_cases :
    (r : Relationship)
    → elim r [ Relationship.child ↦ true | Relationship.unauthenticated_child ↦ true | _ ↦ false ]
      ≡ true
    → (r ≡ Relationship.child) ⊎ (r ≡ Relationship.unauthenticated_child)
child_cases Relationship.child h = inl refl
child_cases Relationship.unauthenticated_child h = inr refl
child_cases _ h = absurd (cc)

end_device_case : (d : NwkDeviceType) → is_end_device d ≡ true → d ≡ NwkDeviceType.end_device
end_device_case NwkDeviceType.end_device h = refl
end_device_case _ h = absurd (cc)

is_timed_out-IsExpired : (now : ℕ) (e : TableEntry) → (is_timed_out now e ≡ true) ↔ IsExpired now e
is_timed_out-IsExpired now e = (
  λ h. record {
    is_ours = child_cases e.relationship (ground (arith, h));
    sleeps = end_device_case e.device_type (ground (arith, h));
    passed = ground (arith, h);
  },
  λ x. elim x.is_ours [
    | inl c ↦ ground (arith, c, x.sleeps, x.passed)
    | inr c ↦ ground (arith, c, x.sleeps, x.passed)
  ],
)

-- In a sorted table that holds each entry under its own extended address, an entry is in the table
-- after the eviction exactly if it was there before and is no end device among the children whose
-- deadline has passed.
pub eviction_survivors :
    (n : Neighbors) (now : ℕ) (k : Eui64) (e : TableEntry)
    → IsSorted n.table
    → Keyed n.table
    → (FlatMap.get (evict_timed_out_children n now).0.table k ≡ some e)
      ↔ ((FlatMap.get n.table k ≡ some e) × ¬ IsExpired now e)
unfolding Option.bind
eviction_survivors n now k e s keyed =
    let after = get-evict_timed_out_children n now k s keyed in
    let expired = is_timed_out-IsExpired now e in
    elim (Option-cases (FlatMap.get n.table k)) [
      | inl missing ↦ (
        λ h. absurd (ground (arith, after, missing, h)),
        λ h. absurd (ground (arith, missing, h.0)),
      )
      | inr (x, g) ↦ (
        λ h.
            let same : x ≡ e = ground (arith, after, g, h) in
            let on : is_timed_out now x ≡ false = ground (arith, after, g, h) in
            (g ∙ ap some same, λ over. absurd (ground (arith, expired.1 over, on, same))),
        λ h.
            let same : x ≡ e = some-injective x e (sym g ∙ h.0) in
            elim (Bool-cases (is_timed_out now e)) [
              | inl over ↦ absurd (h.1 (expired.0 over))
              | inr on ↦ ground (arith, after, g, on, same)
            ],
      )
    ]

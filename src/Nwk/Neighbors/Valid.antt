-- ===== src/Nwk/Neighbors/Valid.antt =====
-- The invariant of the neighbor table, and what keeps it.
use ziggurat.RingBuffer.{push}
use ziggurat.Base.{
  ℕ, ◌≡◌, ◌≤◌, leb, not, ◌&&◌, refl, Bool, some, List, [], ◌∷◌, All, arith, inl, inr, Option-cases,
  Bool-cases,
}
use ziggurat.Base.Order.{nat_ord}
use ziggurat.Types.{Nwk, Eui64}
use ziggurat.FlatMap
use ziggurat.FlatMap.{FlatMap}
use ziggurat.FlatMap.Sorted.{IsSorted, Sorted, Above}
use ziggurat.FlatMap.StaysSorted.{
  remove-IsSorted, modify-IsSorted, or_insert-IsSorted, update_values-IsSorted, pop_first-IsSorted,
}
use ziggurat.FlatMap.Entries.{get-All, All-get}
use ziggurat.FlatMap.Everywhere.{
  Everywhere-modify, Everywhere-remove, Everywhere-update_values, Everywhere-or_insert,
}
use ziggurat.Nwk.Neighbors.{
  Neighbors, NeighborTable, TableEntry, LqaSamples, no_samples, pending_lqa_cap, buffer_lqa,
  modify_first, record_lqa, at_address, sample,
}
use ziggurat.Nwk.Neighbors.Samples.{len-buffer_lqa}
use ziggurat.Nwk.Neighbors.Children.Eviction.{Keyed}

pub record ValidTable (table : NeighborTable) : Type 0 where
  pub sorted : IsSorted table
  pub keyed : Keyed table

pub record IsValid (n : Neighbors) : Type 0 where
  pub valid_table : ValidTable n.table
  pub pending_sorted : IsSorted n.pending_lqas
  pub pending_fits : FlatMap.len n.pending_lqas ≤ pending_lqa_cap

-- A change of an entry that leaves its extended address alone.
abbrev pub Keeps : (TableEntry → TableEntry) → Type 0
Keeps f = (e : TableEntry) → (f e).extended_address ≡ e.extended_address

module _ (table : NeighborTable) (v : ValidTable table) where
  pub modify-ValidTable :
      (k : Eui64) (f : TableEntry → TableEntry) → Keeps f → ValidTable (FlatMap.modify table k f)
  modify-ValidTable k f keeps = record {
    sorted = modify-IsSorted table k f v.sorted;
    keyed =
        Everywhere-modify (λ j e. e.extended_address ≡ j) table k f v.keyed
          (λ e g. ground (arith, keeps e, v.keyed k e g));
  }

  pub update_values-ValidTable :
      (f : TableEntry → TableEntry) → Keeps f → ValidTable (FlatMap.update_values f table)
  update_values-ValidTable f keeps = record {
    sorted = update_values-IsSorted f table v.sorted;
    keyed =
        Everywhere-update_values (λ j e. e.extended_address ≡ j) table f
          (λ k e g. ground (arith, keeps e, v.keyed k e g));
  }

  pub remove-ValidTable : (k : Eui64) → ValidTable (FlatMap.remove table k).0
  remove-ValidTable k = record {
    sorted = remove-IsSorted table k v.sorted;
    keyed = Everywhere-remove (λ j e. e.extended_address ≡ j) table k v.sorted v.keyed;
  }

  pub or_insert-ValidTable :
      (k : Eui64) (e : TableEntry)
      → e.extended_address ≡ k
      → ValidTable (FlatMap.or_insert table k e).0
  or_insert-ValidTable k e own = record {
    sorted = or_insert-IsSorted table k e v.sorted;
    keyed = Everywhere-or_insert (λ j x. x.extended_address ≡ j) table k e v.keyed own;
  }

-- A write to the first match changes no key.
modify_first-Above :
    (p : TableEntry → Bool) (f : TableEntry → TableEntry) (es : List (Eui64 × TableEntry))
    (j : Eui64) {new : List (Eui64 × TableEntry)}
    → modify_first p f es ≡ some new
    → Above j es
    → Above j new
unfolding modify_first
modify_first-Above p f [] j e a = ground (arith, e)
modify_first-Above p f ((k, x) ∷ es) j {new} e a = elim (Bool-cases (p x)) [
  | inl here ↦ ground (arith, here, e, a)
  | inr on ↦ elim (Option-cases (modify_first p f es)) [
    | inl missing ↦ absurd (ground (arith, on, missing, e))
    | inr (rest, g) ↦ ground (arith, on, g, e, a, modify_first-Above p f es j g a.1)
  ]
]

modify_first-Sorted :
    (p : TableEntry → Bool) (f : TableEntry → TableEntry) (es : List (Eui64 × TableEntry))
    {new : List (Eui64 × TableEntry)}
    → modify_first p f es ≡ some new
    → Sorted es
    → Sorted new
unfolding modify_first
modify_first-Sorted p f [] e s = ground (arith, e)
modify_first-Sorted p f ((k, x) ∷ es) {new} e s = elim (Bool-cases (p x)) [
  | inl here ↦ ground (arith, here, e, s)
  | inr on ↦ elim (Option-cases (modify_first p f es)) [
    | inl missing ↦ absurd (ground (arith, on, missing, e))
    | inr (rest, g) ↦
        ground
          (arith, on, g, e, s, modify_first-Sorted p f es g s.1, modify_first-Above p f es k g s.0)
  ]
]

-- Each entry of a vector stands under its own address.
abbrev Owned : List (Eui64 × TableEntry) → Type 0
Owned es = All (λ a. a.1.extended_address ≡ a.0) es

modify_first-Owned :
    (p : TableEntry → Bool) (f : TableEntry → TableEntry) (es : List (Eui64 × TableEntry))
    {new : List (Eui64 × TableEntry)}
    → Keeps f
    → modify_first p f es ≡ some new
    → Owned es
    → Owned new
unfolding modify_first
modify_first-Owned p f [] keeps e a = ground (arith, e)
modify_first-Owned p f ((k, x) ∷ es) {new} keeps e a = elim (Bool-cases (p x)) [
  | inl here ↦ ground (arith, here, e, a, keeps x)
  | inr on ↦ elim (Option-cases (modify_first p f es)) [
    | inl missing ↦ absurd (ground (arith, on, missing, e))
    | inr (rest, g) ↦ ground (arith, on, g, e, a, modify_first-Owned p f es keeps g a.1)
  ]
]

pub modify_first-ValidTable :
    (p : TableEntry → Bool) (f : TableEntry → TableEntry) (table : NeighborTable)
    {new : List (Eui64 × TableEntry)}
    → Keeps f
    → ValidTable table
    → modify_first p f table.entries ≡ some new
    → ValidTable (record { entries = new })
modify_first-ValidTable p f table {new} keeps v e = record {
  sorted = modify_first-Sorted p f table.entries e v.sorted;
  keyed = λ k x g.
      All-get (λ a. a.1.extended_address ≡ a.0) (record { entries = new }) k x
        (modify_first-Owned p f table.entries keeps e
          (get-All (λ a. a.1.extended_address ≡ a.0) table v.sorted v.keyed))
        g;
}

-- The table changes, and the buffers stay.
pub with_table :
    (n : Neighbors) (table : NeighborTable)
    → IsValid n
    → ValidTable table
    → IsValid (record n { table = table })
with_table n table v t = record {
  valid_table = t;
  pending_sorted = v.pending_sorted;
  pending_fits = v.pending_fits;
}

buffer_lqa-IsSorted :
    (pending : FlatMap Nwk LqaSamples) (sender : Nwk) (lqi : ℕ)
    → IsSorted pending
    → IsSorted (buffer_lqa pending sender lqi)
unfolding buffer_lqa
buffer_lqa-IsSorted pending sender lqi s =
    elim (Bool-cases
      (leb pending_lqa_cap (FlatMap.len pending) && not (FlatMap.contains_key pending sender))) [
        | inl full ↦
            let room = (FlatMap.pop_first pending).0 in
            rw full (
              modify-IsSorted (FlatMap.or_insert room sender no_samples).0 sender (λ r. push r lqi)
                (or_insert-IsSorted room sender no_samples (pop_first-IsSorted pending s)))
        | inr free ↦ rw free (
            modify-IsSorted (FlatMap.or_insert pending sender no_samples).0 sender (λ r. push r lqi)
              (or_insert-IsSorted pending sender no_samples s))
      ]

pub record_lqa-IsValid :
    (n : Neighbors) (sender : Nwk) (lqi : ℕ) → IsValid n → IsValid (record_lqa n sender lqi)
unfolding record_lqa
record_lqa-IsValid n sender lqi v =
    elim (Option-cases (modify_first (at_address sender) (sample lqi) n.table.entries)) [
      | inl missing ↦
          rw (record_lqa, missing)
            (record {
              valid_table = v.valid_table;
              pending_sorted = buffer_lqa-IsSorted n.pending_lqas sender lqi v.pending_sorted;
              pending_fits = len-buffer_lqa n.pending_lqas sender lqi v.pending_fits;
            })
      | inr (es, known) ↦
          rw (record_lqa, known)
            (with_table n (record { entries = es }) v
              (modify_first-ValidTable (at_address sender) (sample lqi) n.table (λ e. refl)
                v.valid_table known))
    ]

-- ===== src/Protocol/SendTracker/Table.antt =====
-- A sweep over the table, seen from one request identifier.
use ziggurat.Base.{
  ℕ, ◌≡◌, refl, sym, ◌∙◌, ap, subst, ltb, Option, none, some, List, [], ◌∷◌, if◌then◌else◌, ◌==◌,
  filterb, any, arith, inl, inr, Bool-cases,
}
use ziggurat.Base.Order.{nat_ord}
use ziggurat.FlatMap
use ziggurat.FlatMap.{FlatMap}
use ziggurat.FlatMap.Sorted.{IsSorted, Sorted, Above, lookup, get-eq}
use ziggurat.FlatMap.StaysSorted.{remove-IsSorted}
use ziggurat.FlatMap.Laws.{get-remove}
use ziggurat.Protocol.SendTracker.{
  SendTracker, TrackedSend, SendProgress, sweep_entry, sweep_entries, remove_done, sweep,
}
use ziggurat.Protocol.SendTracker.Entries.{
  is_for, frames_of, Seen, lookup-Above, Seen-here, Seen-other,
}

sweep_entries-Seen :
    (status : ℕ → SendProgress) (es : List (ℕ × TrackedSend)) (id : ℕ)
    → Sorted es
    → Seen status es id
unfolding sweep_entries lookup
sweep_entries-Seen status [] id s = record { out = refl; done = refl; entry = refl }
sweep_entries-Seen status ((k, e) ∷ es) id s = elim (Bool-cases (k == id)) [
  | inl same ↦
      subst (Seen status ((k, e) ∷ es)) {x = k} (ground (arith, same))
        (Seen-here status k e es (sweep_entries-Seen status es k s.1) s.0)
  | inr apart ↦ elim (Bool-cases (ltb k id)) [
    | inl lower ↦
        Seen-other status k e es id (sweep_entries-Seen status es id s.1) apart (lookup es id)
          (ground (arith, lower)) refl
    | inr higher ↦
        Seen-other status k e es id (sweep_entries-Seen status es id s.1) apart none
          (ground (arith, apart, higher)) (lookup-Above es k id (ground (arith, apart, higher)) s.0)
  ]
]

-- The keys stay.
sweep_entries-Above :
    (status : ℕ → SendProgress) (es : List (ℕ × TrackedSend)) (k : ℕ)
    → Above k es
    → Above k (sweep_entries status es).entries
unfolding sweep_entries
sweep_entries-Above status [] k a = tt
sweep_entries-Above status ((j, e) ∷ es) k a = (a.0, sweep_entries-Above status es k a.1)

sweep_entries-Sorted :
    (status : ℕ → SendProgress) (es : List (ℕ × TrackedSend))
    → Sorted es
    → Sorted (sweep_entries status es).entries
unfolding sweep_entries
sweep_entries-Sorted status [] s = tt
sweep_entries-Sorted status ((j, e) ∷ es) s =
    (sweep_entries-Above status es j s.0, sweep_entries-Sorted status es s.1)

get-remove_done :
    (t : SendTracker) (ids : List ℕ) (id : ℕ)
    → IsSorted t
    → FlatMap.get (remove_done t ids) id
      ≡ (if any (λ x. x == id) ids then none else FlatMap.get t id)
unfolding remove_done
get-remove_done t [] id s = refl
get-remove_done t (x ∷ ids) id s = ground (
  arith,
  get-remove_done (FlatMap.remove t x).0 ids id (remove-IsSorted t x s),
  get-remove t x id s,
)

remove_done-IsSorted : (t : SendTracker) (ids : List ℕ) → IsSorted t → IsSorted (remove_done t ids)
unfolding remove_done
remove_done-IsSorted t [] s = s
remove_done-IsSorted t (x ∷ ids) s =
    remove_done-IsSorted (FlatMap.remove t x).0 ids (remove-IsSorted t x s)

pub sweep-IsSorted :
    (t : SendTracker) (status : ℕ → SendProgress) → IsSorted t → IsSorted (sweep t status).0
unfolding sweep
sweep-IsSorted t status s =
    remove_done-IsSorted (record { entries = (sweep_entries status t.entries).entries })
      (sweep_entries status t.entries).done (sweep_entries-Sorted status t.entries s)

pub sweep-frames :
    (t : SendTracker) (status : ℕ → SendProgress) (id : ℕ)
    → IsSorted t
    → filterb (is_for id) (sweep t status).1 ≡ frames_of status id (FlatMap.get t id)
unfolding sweep
sweep-frames t status id s =
    (sweep_entries-Seen status t.entries id s).out ∙ sym (ap (frames_of status id) (get-eq t id))

-- What stays of an entry.
abbrev pub left : (ℕ → SendProgress) → ℕ → Option TrackedSend → Option TrackedSend
left status id none = none
left status id (some e) =
    if (sweep_entry id (status e.handle) e).done
    then none
    else some (sweep_entry id (status e.handle) e).entry

pub get-sweep :
    (t : SendTracker) (status : ℕ → SendProgress) (id : ℕ)
    → IsSorted t
    → FlatMap.get (sweep t status).0 id ≡ left status id (FlatMap.get t id)
unfolding sweep
get-sweep t status id s =
    let swept_table : SendTracker = record { entries = (sweep_entries status t.entries).entries } in
    let seen = sweep_entries-Seen status t.entries id s in
    get-remove_done swept_table (sweep_entries status t.entries).done id
      (sweep_entries-Sorted status t.entries s)
    ∙ ground (arith, seen.done, seen.entry, get-eq swept_table id, get-eq t id)

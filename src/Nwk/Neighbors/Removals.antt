-- ===== src/Nwk/Neighbors/Removals.antt =====
-- The invariant of the neighbor table and the operations of nwk/neighbors.rs that remove entries, and
-- the link status command.
use ziggurat.Base.{
  ℕ, ◌≡◌, refl, Option, none, some, List, [], ◌∷◌, if◌then◌else◌, arith, inl, inr, Option-cases,
  Bool-cases,
}
use ziggurat.Base.Order.{nat_ord}
use ziggurat.Types.{Nwk, Eui64}
use ziggurat.FlatMap
use ziggurat.FlatMap.{FlatMap}
use ziggurat.FlatMap.StaysSorted.{remove-IsSorted}
use ziggurat.FlatMap.Sizes.{len-remove-le}
use ziggurat.FlatMap.Set.{FlatSet}
use ziggurat.RingBuffer.{push}
use ziggurat.Nwk.Neighbors.{Neighbors, NeighborTable, TableEntry, is_end_device}
use ziggurat.Nwk.Neighbors.Valid.{
  ValidTable, IsValid, Keeps, with_table, modify-ValidTable, remove-ValidTable,
  or_insert-ValidTable,
}
use ziggurat.Nwk.Neighbors.Children.{
  remove_claimed, remove_claimed_children, is_stale, announce, Announced, process_announced,
  process_parent_annce, remove_all, evict_timed_out_children,
}
use ziggurat.Nwk.Neighbors.Links.{
  NwkLinkStatusCommand, connected, new_sibling, samples_or, updated, on_link_status,
}
use ziggurat.Nwk.Neighbors.Links.Status.{updated-Digested}

-- The loops over announced and evicted addresses.
remove_claimed-ValidTable :
    (table : NeighborTable) (claimed : List Eui64)
    → ValidTable table
    → ValidTable (remove_claimed table claimed).0
unfolding remove_claimed
remove_claimed-ValidTable table [] v = v
remove_claimed-ValidTable table (k ∷ rest) v = elim (Option-cases (FlatMap.get table k)) [
  | inl missing ↦ rw (remove_claimed, missing) (remove_claimed-ValidTable table rest v)
  | inr (e, g) ↦ elim (Bool-cases (is_end_device e.device_type)) [
    | inl gone ↦
        rw (remove_claimed, g, gone)
          (remove_claimed-ValidTable (FlatMap.remove table k).0 rest (remove-ValidTable table v k))
    | inr kept ↦ rw (remove_claimed, g, kept) (remove_claimed-ValidTable table rest v)
  ]
]

announce-table :
    (known : Option TableEntry) (k : Eui64) (rest : Announced)
    → (announce known k rest).table ≡ rest.table
announce-table none k rest = refl
announce-table (some e) k rest = ground arith

process_announced-ValidTable :
    (table : NeighborTable) (announced : List Eui64)
    → ValidTable table
    → ValidTable (process_announced table announced).table
unfolding process_announced
process_announced-ValidTable table [] v = v
process_announced-ValidTable table (k ∷ rest) v =
    let known = FlatMap.get table k in
    rw
      (announce-table known k
        (process_announced (if is_stale known then (FlatMap.remove table k).0 else table) rest))
      (elim (Bool-cases (is_stale known)) [
        | inl stale ↦ rw stale (
            process_announced-ValidTable (FlatMap.remove table k).0 rest
              (remove-ValidTable table v k))
        | inr kept ↦ rw kept (process_announced-ValidTable table rest v)
      ])

remove_all-ValidTable :
    (table : NeighborTable) (gone : List (Eui64 × Nwk))
    → ValidTable table
    → ValidTable (remove_all table gone)
unfolding remove_all
remove_all-ValidTable table [] v = v
remove_all-ValidTable table (a ∷ rest) v =
    remove_all-ValidTable (FlatMap.remove table a.0).0 rest (remove-ValidTable table v a.0)

updated-owner :
    (own : Nwk) (known : FlatSet Nwk) (command : NwkLinkStatusCommand) (now : ℕ)
    → Keeps (updated own known command now)
unfolding updated
updated-owner own known command now e = (updated-Digested own known command now e).4

module _ (n : Neighbors) (v : IsValid n) where
  pub remove_claimed_children-IsValid :
      (claimed : List Eui64) → IsValid (remove_claimed_children n claimed).0
  unfolding remove_claimed_children
  remove_claimed_children-IsValid claimed =
      with_table n _ v (remove_claimed-ValidTable n.table claimed v.valid_table)

  pub process_parent_annce-IsValid :
      (announced : List Eui64) → IsValid (process_parent_annce n announced).0
  unfolding process_parent_annce
  process_parent_annce-IsValid announced =
      with_table n _ v (process_announced-ValidTable n.table announced v.valid_table)

  pub evict_timed_out_children-IsValid : (now : ℕ) → IsValid (evict_timed_out_children n now).0
  unfolding evict_timed_out_children
  evict_timed_out_children-IsValid now =
      with_table n _ v
        (remove_all-ValidTable n.table (evict_timed_out_children n now).1 v.valid_table)

  pub on_link_status-IsValid :
      (own : Nwk) (source_ieee : Eui64) (source_nwk : Nwk) (lqi : ℕ)
      (command : NwkLinkStatusCommand) (now : ℕ)
      → IsValid (on_link_status n own source_ieee source_nwk lqi command now).0
  unfolding on_link_status
  on_link_status-IsValid own source_ieee source_nwk lqi command now =
      let new =
        new_sibling source_ieee source_nwk
          (push (samples_or (FlatMap.remove n.pending_lqas source_nwk).1) lqi) now in
      let table = (FlatMap.or_insert n.table source_ieee new).0 in
      record {
        valid_table =
            modify-ValidTable table
              (or_insert-ValidTable n.table v.valid_table source_ieee new refl) source_ieee
              (updated own (connected n) command now) (updated-owner own (connected n) command now);
        pending_sorted = remove-IsSorted n.pending_lqas source_nwk v.pending_sorted;
        pending_fits = omega (arith, len-remove-le n.pending_lqas source_nwk, v.pending_fits);
      }

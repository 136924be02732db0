-- ===== src/Nwk/Neighbors/Changes.antt =====
-- The invariant of the neighbor table and the operations of nwk/neighbors.rs that change entries.
use ziggurat.Base.{
  ℕ, saturating_add, u8_max, refl, Bool, Option, none, some, if◌then◌else◌, arith, inl, inr,
  Option-cases, Bool-cases, ◌==◌, is_some,
}
use ziggurat.Base.Order.{nat_ord}
use ziggurat.Types.{Nwk, Eui64}
use ziggurat.FlatMap
use ziggurat.FlatMap.{FlatMap}
use ziggurat.Nwk.Neighbors.{Neighbors, TableEntry, is_child, at_address, modify_first}
use ziggurat.Nwk.Neighbors.Valid.{
  IsValid, Keeps, with_table, modify-ValidTable, update_values-ValidTable, remove-ValidTable,
  or_insert-ValidTable, modify_first-ValidTable,
}
use ziggurat.Nwk.Neighbors.Children
use ziggurat.Nwk.Neighbors.Children.{
  refreshed, change_first, refresh_at, refresh_child_timeout, set_child_timeout,
  update_network_address, take_child, remove_claimed, remove_claimed_children, is_stale, announce,
  Announced, process_announced, process_parent_annce, remove_all, evict_timed_out_children,
  ChildDescriptor, new_child, attached, upsert_child,
}
use ziggurat.Nwk.Neighbors.Links.{
  aged, age, decay_activity, record_outbound_activity, record_inbound_activity,
  record_transmit_failure, reset_transmit_failures,
}

module _ (n : Neighbors) (v : IsValid n) where
  change_first-IsValid :
      (p : TableEntry → Bool) (f : TableEntry → TableEntry)
      → Keeps f
      → IsValid (change_first p f n).0
  change_first-IsValid p f keeps = elim (Option-cases (modify_first p f n.table.entries)) [
    | inl missing ↦ rw (change_first, missing) v
    | inr (es, known) ↦
        rw (change_first, known)
          (with_table n (record { entries = es }) v
            (modify_first-ValidTable p f n.table keeps v.valid_table known))
  ]

  refresh_at-IsValid : (nwk : Option Nwk) (now : ℕ) → IsValid (refresh_at n nwk now).0
  refresh_at-IsValid none now = v
  refresh_at-IsValid (some nwk) now =
      change_first-IsValid (at_address nwk) (refreshed now) (λ e. refl)

  pub refresh_child_timeout-IsValid :
      (eui64 : Option Eui64) (nwk : Option Nwk) (now : ℕ)
      → IsValid (refresh_child_timeout n eui64 nwk now).0
  unfolding refresh_child_timeout
  refresh_child_timeout-IsValid none nwk now = refresh_at-IsValid nwk now
  refresh_child_timeout-IsValid (some k) nwk now =
      elim (Bool-cases (is_some (FlatMap.get n.table k))) [
        | inl known ↦ rw known (
            with_table n (FlatMap.modify n.table k (refreshed now)) v
              (modify-ValidTable n.table v.valid_table k (refreshed now) (λ e. refl)))
        | inr missing ↦ rw missing (refresh_at-IsValid nwk now)
      ]

  pub set_child_timeout-IsValid :
      (nwk : Nwk) (timeout configuration now : ℕ)
      → IsValid (set_child_timeout n nwk timeout configuration now).0
  unfolding set_child_timeout
  set_child_timeout-IsValid nwk timeout configuration now = change_first-IsValid _ _ (λ e. refl)

  pub update_network_address-IsValid :
      (k : Eui64) (nwk : Nwk) → IsValid (update_network_address n k nwk)
  unfolding update_network_address
  update_network_address-IsValid k nwk = with_table n _ v (
      modify-ValidTable n.table v.valid_table k
        (λ e. if e.network_address == nwk then e else record e { network_address = nwk })
        (λ e. ground arith))

  pub take_child-IsValid : (k : Eui64) → IsValid (take_child n k).0
  unfolding take_child
  take_child-IsValid k = elim (Option-cases (FlatMap.get n.table k)) [
    | inl missing ↦ rw (take_child, missing) v
    | inr (e, g) ↦ elim (Bool-cases (is_child e)) [
      | inl ours ↦
          rw (take_child, g, ours)
            (with_table n (FlatMap.remove n.table k).0 v
              (remove-ValidTable n.table v.valid_table k))
      | inr other ↦ rw (take_child, g, other) v
    ]
  ]

  pub upsert_child-IsValid : (c : ChildDescriptor) (now : ℕ) → IsValid (upsert_child n c now)
  unfolding upsert_child
  upsert_child-IsValid c now =
      let table = (FlatMap.or_insert n.table c.eui64 (new_child c now)).0 in
      with_table n (FlatMap.modify table c.eui64 (attached c now)) v (
        modify-ValidTable table
          (or_insert-ValidTable n.table v.valid_table c.eui64 (new_child c now) refl) c.eui64
          (attached c now) (λ e. refl))

  pub remove-IsValid : (k : Eui64) → IsValid (Children.remove n k)
  unfolding Children.remove
  remove-IsValid k =
      with_table n (FlatMap.remove n.table k).0 v (remove-ValidTable n.table v.valid_table k)

  pub age-IsValid : (now max_age : ℕ) → IsValid (age n now max_age).0
  unfolding age
  age-IsValid now max_age =
      with_table n _ v
        (update_values-ValidTable n.table v.valid_table (aged now max_age) (λ e. ground arith))

  pub decay_activity-IsValid : IsValid (decay_activity n)
  unfolding decay_activity
  decay_activity-IsValid =
      with_table n _ v (update_values-ValidTable n.table v.valid_table _ (λ e. refl))

  pub record_outbound_activity-IsValid : (k : Eui64) → IsValid (record_outbound_activity n k)
  unfolding record_outbound_activity
  record_outbound_activity-IsValid k =
      with_table n _ v (modify-ValidTable n.table v.valid_table k _ (λ e. refl))

  pub record_transmit_failure-IsValid : (k : Eui64) → IsValid (record_transmit_failure n k)
  unfolding record_transmit_failure
  record_transmit_failure-IsValid k =
      with_table n _ v (modify-ValidTable n.table v.valid_table k _ (λ e. refl))

  pub reset_transmit_failures-IsValid : IsValid (reset_transmit_failures n)
  unfolding reset_transmit_failures
  reset_transmit_failures-IsValid =
      with_table n _ v (update_values-ValidTable n.table v.valid_table _ (λ e. refl))

  pub record_inbound_activity-IsValid : (nwk : Nwk) → IsValid (record_inbound_activity n nwk)
  unfolding record_inbound_activity
  record_inbound_activity-IsValid nwk =
      let f : TableEntry → TableEntry = λ e. record e {
        router_inbound_activity = saturating_add u8_max e.router_inbound_activity 1;
      } in
      elim (Option-cases (modify_first (at_address nwk) f n.table.entries)) [
        | inl missing ↦ rw (record_inbound_activity, missing) v
        | inr (es, known) ↦
            rw (record_inbound_activity, known)
              (with_table n (record { entries = es }) v
                (modify_first-ValidTable (at_address nwk) f n.table (λ e. refl) v.valid_table
                  known))
      ]

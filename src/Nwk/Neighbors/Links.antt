-- ===== src/Nwk/Neighbors/Links.antt =====
-- crates/ziggurat-zigbee/src/nwk/neighbors.rs: links to routers, with aging, activity counters and
-- link status commands.
pub mod Aging
pub mod Status
use ziggurat.Base.{
  ℕ, ◌-◌, max, Bool, true, false, not, Option, none, some, List, [], ◌∷◌, map, if◌then◌else◌, ◌==◌,
  leb, ltb, ◌&&◌, filterb, any, u8_max, saturating_add, saturating_sub,
}
use ziggurat.Base.Order.{nat_ord}
use ziggurat.Types.{Nwk, Eui64}
use ziggurat.FlatMap
use ziggurat.FlatMap.{FlatMap}
use ziggurat.FlatMap.Set
use ziggurat.FlatMap.Set.{FlatSet}
use ziggurat.RingBuffer
use ziggurat.RingBuffer.{push}
use ziggurat.Time.{later}
use ziggurat.Nwk.Neighbors.{
  Neighbors, TableEntry, LqaSamples, NwkDeviceType, Relationship, is_router, is_end_device,
  at_address, modify_first, no_samples, lqa, lqi_to_link_cost,
}
use mathlib.Core.Option

abbrev pub is_live_router : TableEntry → Bool
is_live_router e = is_router e.device_type && ltb 0 e.outgoing_cost

unfoldable pub any_live_router_link : Neighbors → Bool
any_live_router_link n = any is_live_router (FlatMap.values n.table)

unfoldable pub expected_broadcast_relayers : Neighbors → List Nwk
expected_broadcast_relayers n =
    map (λ e. e.network_address) (filterb is_live_router (FlatMap.values n.table))

-- A link that has been silent for `max_age`.
abbrev pub is_silent : ℕ → ℕ → TableEntry → Bool
is_silent now max_age e =
    ltb 0 e.outgoing_cost && leb (later e.last_link_status_timestamp max_age) now

abbrev pub aged : ℕ → ℕ → TableEntry → TableEntry
aged now max_age e =
    if is_silent now max_age e
    then record e { lqas = RingBuffer.clear e.lqas; outgoing_cost = 0 }
    else e

-- Also the addresses of the neighbors that went silent.
unfoldable pub age : Neighbors → ℕ → ℕ → Neighbors × List Nwk
age n now max_age = (
  record n { table = FlatMap.update_values (aged now max_age) n.table },
  map (λ e. e.network_address) (filterb (is_silent now max_age) (FlatMap.values n.table)),
)

unfoldable pub decay_activity : Neighbors → Neighbors
decay_activity n = record n {
  table =
      FlatMap.update_values
        (λ e. record e {
          router_outbound_activity = saturating_sub e.router_outbound_activity 1;
          router_inbound_activity = saturating_sub e.router_inbound_activity 1;
        })
        n.table;
}

unfoldable pub record_outbound_activity : Neighbors → Eui64 → Neighbors
record_outbound_activity n eui64 = record n {
  table = FlatMap.modify n.table eui64 (λ e. record e {
    router_outbound_activity = saturating_add u8_max e.router_outbound_activity 1;
  });
}

unfoldable pub record_inbound_activity : Neighbors → Nwk → Neighbors
record_inbound_activity n nwk =
    elim (modify_first (at_address nwk)
      (λ e. record e {
        router_inbound_activity = saturating_add u8_max e.router_inbound_activity 1;
      })
      n.table.entries) [ some es ↦ record n { table = record { entries = es } } | none ↦ n ]

unfoldable pub record_transmit_failure : Neighbors → Eui64 → Neighbors
record_transmit_failure n eui64 = record n {
  table =
      FlatMap.modify n.table eui64
        (λ e. record e { transmit_failure = saturating_add u8_max e.transmit_failure 1 });
}

unfoldable pub reset_transmit_failures : Neighbors → Neighbors
reset_transmit_failures n = record n {
  table = FlatMap.update_values (λ e. record e { transmit_failure = 0 }) n.table;
}

-- `NwkLinkStatus`: the two costs have three bits.
pub record NwkLinkStatus : Type 0 where
  pub address : Nwk
  pub incoming_cost : ℕ
  pub outgoing_cost : ℕ

pub record NwkLinkStatusCommand : Type 0 where
  pub is_first_frame : Bool
  pub is_last_frame : Bool
  pub link_statuses : List NwkLinkStatus

-- `filter_map` over the entries.
unfoldable pub statuses : List TableEntry → List NwkLinkStatus
statuses [] = []
statuses (e ∷ es) =
    let rest = statuses es in
    elim (lqa e) [
      | none ↦ rest
      | some q ↦
          record {
            address = e.network_address;
            incoming_cost = lqi_to_link_cost q;
            outgoing_cost = e.outgoing_cost;
          }
          ∷ rest
    ]

unfoldable pub link_status_entries : Neighbors → List NwkLinkStatus
link_status_entries n = statuses (filterb (λ e. is_router e.device_type) (FlatMap.values n.table))

-- `collect::<FlatSet<Nwk>>`.
unfoldable pub collect : List Nwk → FlatSet Nwk → FlatSet Nwk
collect [] s = s
collect (x ∷ xs) s = collect xs (Set.insert s x).0

-- The addresses with a nonzero outgoing cost.
abbrev pub connected : Neighbors → FlatSet Nwk
connected n =
    collect
      (map (λ e. e.network_address) (filterb (λ e. ltb 0 e.outgoing_cost) (FlatMap.values n.table)))
      Set.empty

-- `Duration::from_secs(0xFFFFFFFF)`.
abbrev pub no_timeout : ℕ
no_timeout = 4294967295000000

-- A sibling heard for the first time, with the samples buffered before and the current one.
abbrev pub new_sibling : Eui64 → Nwk → LqaSamples → ℕ → TableEntry
new_sibling source_ieee source_nwk lqas now = record {
  extended_address = source_ieee;
  network_address = source_nwk;
  device_type = NwkDeviceType.router;
  rx_on_when_idle = true;
  end_device_configuration = 0;
  timeout_at = later now no_timeout;
  device_timeout = no_timeout;
  relationship = Relationship.sibling;
  transmit_failure = 0;
  lqas = lqas;
  outgoing_cost = 0;
  last_link_status_timestamp = now;
  incoming_beacon_timestamp = 0;
  beacon_transmission_time_offset = 0;
  keepalive_received = true;
  mac_unicast_bytes_transmitted = 0;
  mac_unicast_bytes_received = 0;
  router_added_timestamp = now;
  router_connectivity = 0;
  router_neighbor_set_diversity = 0;
  router_outbound_activity = 0;
  router_inbound_activity = 0;
  security_timer = 0;
}

-- An entry that was loaded as an end device is a router.
abbrev pub corrected : TableEntry → TableEntry
corrected e =
    if is_end_device e.device_type
    then record e { device_type = NwkDeviceType.router; rx_on_when_idle = true }
    else e

abbrev pub restarted : Bool → TableEntry → TableEntry
restarted true e = record e {
  router_connectivity = 0;
  router_neighbor_set_diversity = 0;
  outgoing_cost = 0;
}
restarted false e = e

-- One listed link: its connectivity counts, and our own address tells the outgoing cost.
abbrev pub counted : FlatSet Nwk → NwkLinkStatus → TableEntry → TableEntry
counted known l e =
    if ltb 0 l.outgoing_cost
    then (let connectivity = 7 - max l.incoming_cost l.outgoing_cost in
        record e {
          router_connectivity = saturating_add u8_max e.router_connectivity connectivity;
          router_neighbor_set_diversity =
              if Set.contains known l.address
              then e.router_neighbor_set_diversity
              else saturating_add u8_max e.router_neighbor_set_diversity connectivity;
        })
    else e

abbrev pub listed : Nwk → NwkLinkStatus → TableEntry → TableEntry
listed own_address l e =
    if l.address == own_address then record e { outgoing_cost = l.incoming_cost } else e

unfoldable pub digest : Nwk → FlatSet Nwk → List NwkLinkStatus → TableEntry → TableEntry
digest own_address known [] e = e
digest own_address known (l ∷ ls) e =
    digest own_address known ls (listed own_address l (counted known l e))

-- What a command makes of the sender's entry.
unfoldable pub updated : Nwk → FlatSet Nwk → NwkLinkStatusCommand → ℕ → TableEntry → TableEntry
updated own_address known command now e =
    digest own_address known command.link_statuses
      (restarted command.is_first_frame (record (corrected e) { last_link_status_timestamp = now }))

abbrev pub samples_or : Option LqaSamples → LqaSamples
samples_or none = no_samples
samples_or (some r) = r

-- Also the sender's address, if its link is lost.
unfoldable pub on_link_status :
    Neighbors → Nwk → Eui64 → Nwk → ℕ → NwkLinkStatusCommand → ℕ → Neighbors × Option Nwk
on_link_status n own_address source_ieee source_nwk lqi command now =
    let known = connected n in
    let (pending, buffered) = FlatMap.remove n.pending_lqas source_nwk in
    let (table, old) =
      FlatMap.or_insert n.table source_ieee
        (new_sibling source_ieee source_nwk (push (samples_or buffered) lqi) now) in
    let new = updated own_address known command now old in
    (
      record {
        table = FlatMap.modify table source_ieee (updated own_address known command now);
        pending_lqas = pending;
      },
      if ltb 0 old.outgoing_cost && (new.outgoing_cost == 0)
          then some new.network_address
          else none,
    )

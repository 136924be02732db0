-- ===== src/Nwk/Routing/Replies.antt =====
-- crates/ziggurat-zigbee/src/nwk/routing.rs: route replies.
use ziggurat.Base.{ℕ, Option, none, some, if◌then◌else◌, ◌==◌, leb, ◌&&◌}
use ziggurat.Types.{Nwk}
use ziggurat.Base.Order.{nat_ord, pair_ord}
use ziggurat.FlatMap
use ziggurat.FlatMap.{FlatMap}
use ziggurat.Nwk.Routing.{
  Routing, TableEntry, DiscoveryEntry, RouteUpdate, is_active, consider_route, routed,
  points_elsewhere,
}
use ziggurat.Nwk.Routing.Discovery.{reverse_entry, set_entry, when}

pub record RouteReply : Type 0 where
  pub originator : Nwk
  pub request_id : ℕ
  pub responder : Nwk
  pub sender : Nwk
  pub updated_path_cost : ℕ

pub data Disposition : Type 0 where
  dropped established : Disposition
  relay : Nwk → ℕ → Disposition

pub record RouteReplyOutcome : Type 0 where
  pub disposition : Disposition
  pub update : Option RouteUpdate

abbrev pub drop_reply : RouteReplyOutcome
drop_reply = record { disposition = Disposition.dropped; update = none }

-- The route to the responder, and the residual cost, after an accepted reply.
abbrev pub routed_reply : Routing → RouteReply → TableEntry → Routing
routed_reply r q e = record r {
  route_table = set_entry r.route_table q.responder (routed e q.sender q.updated_path_cost);
  discovery_table =
      FlatMap.modify r.discovery_table (q.originator, q.request_id)
        (λ d. record d { residual_cost = q.updated_path_cost });
}

-- The reply answers a request of our own.
unfoldable pub establish :
    Routing → RouteReply → DiscoveryEntry → TableEntry → Routing × RouteReplyOutcome
establish r q d e =
    if is_active e.status && leb d.residual_cost q.updated_path_cost then (r, drop_reply) else (
      routed_reply r q e,
      record {
        disposition = Disposition.established;
        update = when (points_elsewhere e q.sender) (record {
          destination = q.responder;
          next_hop = q.sender;
          path_cost = q.updated_path_cost;
        });
      },
    )

-- The reply travels on, and the reverse route to the originator is considered.
unfoldable pub relay_reply :
    Routing → RouteReply → DiscoveryEntry → TableEntry → Routing × RouteReplyOutcome
relay_reply r q d e =
    if leb d.residual_cost q.updated_path_cost
    then (r, drop_reply)
    else (let s = routed_reply r q e in
        let (reverse, changed) =
          consider_route (reverse_entry s.route_table q.originator) d.sender_address
            d.forward_cost in
        (
          record s { route_table = set_entry s.route_table q.originator reverse },
          record {
            disposition = Disposition.relay d.sender_address q.updated_path_cost;
            update = when changed (record {
              destination = q.originator;
              next_hop = d.sender_address;
              path_cost = d.forward_cost;
            });
          },
        ))

unfoldable pub accept_route_reply : Routing → Nwk → RouteReply → Routing × RouteReplyOutcome
accept_route_reply r own_address q =
    elim (FlatMap.get r.discovery_table (q.originator, q.request_id)) [
      | none ↦ (r, drop_reply)
      | some d ↦ elim (FlatMap.get r.route_table q.responder) [
        | none ↦ (r, drop_reply)
        | some e ↦ if q.originator == own_address then establish r q d e else relay_reply r q d e
      ]
    ]

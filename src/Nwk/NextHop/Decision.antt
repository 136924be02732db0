-- ===== src/Nwk/NextHop/Decision.antt =====
-- What the decision guarantees, whichever branch it takes.
use ziggurat.Base.{◌≡◌, ◌≢◌, ◌↔◌, refl, some, List, [], ◌∷◌, last, ok, err, arith}
use ziggurat.FlatMap
use ziggurat.Base.Order.{nat_ord}
use ziggurat.Types.{Nwk}
use ziggurat.Nwk.Neighbors.{Neighbors}
use ziggurat.Nwk.Routing.{Routing}
use ziggurat.Nwk.Frame.{NwkHeader}
use ziggurat.Nwk.NextHop.{
  HostRoute, RouteDirective, SendMode, NextHop, Policy, Outcome, with_source_route,
  apply_source_route, apply_host_route, resolve,
}

-- The header goes out as built, or carries the relays of a source route whose last one is the hop.
pub data Sound (header : NwkHeader) : Outcome → Type 0 where
  untouched : (n : NextHop) → Sound header (ok (header, n))
  source_routed :
      (relays : List Nwk) (hop : Nwk)
      → last relays ≡ some hop
      → Sound header (ok (with_source_route header relays, NextHop.resolved hop))

-- The host's relay lists are not empty, as the bridge checks.
abbrev pub HostRouteFits : HostRoute → Type 0
HostRouteFits (HostRoute.next_hop hop) = Unit
HostRouteFits (HostRoute.source_route relays) = relays ≢ []

abbrev pub DirectiveFits : RouteDirective → Type 0
DirectiveFits RouteDirective.stack_decides = Unit
DirectiveFits (RouteDirective.hint supplied) = HostRouteFits supplied
DirectiveFits (RouteDirective.force supplied) = HostRouteFits supplied

abbrev pub ModeFits : SendMode → Type 0
ModeFits SendMode.direct = Unit
ModeFits (SendMode.route directive) = DirectiveFits directive

last-some : (x : Nwk) (xs : List Nwk) → (hop : Nwk) × (last (x ∷ xs) ≡ some hop)
last-some x [] = (x, refl)
last-some x (y ∷ ys) = last-some y ys

-- Resolving a source route that the host forces panics exactly if it has no relays, whatever the
-- tables and the header.
pub forced_source_route :
    (routing : Routing) (neighbors : Neighbors) (header : NwkHeader) (relays : List Nwk)
    (policy : Policy)
    → (resolve routing neighbors header
          (SendMode.route (RouteDirective.force (HostRoute.source_route relays)))
          policy
        ≡ err tt)
      ↔ (relays ≡ [])
unfolding resolve apply_host_route apply_source_route
forced_source_route routing neighbors header [] policy = (λ _. refl, λ _. refl)
forced_source_route routing neighbors header (x ∷ xs) policy =
    let (hop, e) = last-some x xs in (λ p. absurd (ground (arith, p, e)), λ n. absurd (cc))

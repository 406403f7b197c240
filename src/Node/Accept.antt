-- ===== src/Node/Accept.antt =====
-- A reply at its source: the route is cached and served, the discovery ends and the queue for the
-- destination is empty.
use dl_dsr_rs.Base.{
  ℕ, ◌≤◌, ◌≡◌, refl, inl, inr, Option-cases, List, [], ◌∷◌, none, some, filter, nat_eq, arith,
}
use dl_dsr_rs.HashMap.{get}
use dl_dsr_rs.HashMap.Laws.{get-remove}
use dl_dsr_rs.Core.Socket.{SocketAddr}
use dl_dsr_rs.Core.Packet.{Rrep}
use dl_dsr_rs.Core.Routes.{RouteEntry, new_dsr, hop_count, insert_route, shortest}
use dl_dsr_rs.Core.Routes.Shortest.{keep_less, shortest-insert_route}
use dl_dsr_rs.Node.State.{Clock, later, route_cached, PendingData, ProtocolState}
use dl_dsr_rs.Node.Origin.{drop_data, origin_data, flush_loop, flush_pending}
use dl_dsr_rs.Node.Rrep.{route_of, cache_route, accept_rrep, handle_rrep}
use dl_dsr_rs.Node.Pending.{waits_for, waits_not, flush_pending-IsFlushed}
use dl_dsr_rs.Node.Reply.{ComesBack, validate_rrep_iff}

origin_data-routes :
    (s : ProtocolState) (dst : ℕ) (payload : List ℕ) (route : RouteEntry) (clock : Clock)
    → (origin_data s dst payload route clock).0.routes ≡ s.routes
unfolding origin_data drop_data
origin_data-routes s dst payload route clock = ground arith

flush_loop-routes :
    (dst : ℕ) (route : RouteEntry) (queue : List PendingData) (clock : Clock) (s : ProtocolState)
    → (flush_loop dst route queue clock s).0.routes ≡ s.routes
unfolding flush_loop
flush_loop-routes dst route [] clock s = refl
flush_loop-routes dst route (p ∷ queue) clock s = ground (
  arith,
  origin_data-routes s dst p.payload route clock,
  flush_loop-routes dst route queue clock s,
  flush_loop-routes dst route queue (later clock) (origin_data s dst p.payload route clock).0,
)

flush_pending-routes :
    (s : ProtocolState) (dst : ℕ) (route : RouteEntry) (clock : Clock)
    → (flush_pending s dst route clock).0.routes ≡ s.routes
unfolding flush_pending
flush_pending-routes s dst route clock = flush_loop-routes dst route s.pending_data clock s

nobody_waits :
    (dst : ℕ) (ps : List PendingData) → filter (waits_for dst) (filter (waits_not dst) ps) ≡ []
nobody_waits dst [] = refl
nobody_waits dst (p ∷ ps) = ground (arith, nobody_waits dst ps)

-- The route that a live insertion serves is no longer than the one inserted.
insert_route-served :
    (s : ProtocolState) (route : RouteEntry) (now : ℕ)
    → now ≤ route.expires_at_millis
    → (best : RouteEntry) × (shortest (insert_route s.routes route) route.dst_node_id now
        ≡ some best)
      × (hop_count best ≤ hop_count route)
insert_route-served s route now live =
    let e = shortest-insert_route s.routes route route.dst_node_id now in
    elim (Option-cases (shortest s.routes route.dst_node_id now)) [
      | inl none_yet ↦ (route, ground (arith, e, none_yet), omega arith)
      | inr (old, had) ↦
          (keep_less hop_count (some old) route, ground (arith, e, had), ground arith)
    ]

-- The destination of the route that a reply brings.
route_of-dst :
    (s : ProtocolState) (r : Rrep) (now : ℕ) → (route_of s r now).dst_node_id ≡ r.dst_node_id
unfolding route_of new_dsr
route_of-dst s r now = ground arith

-- Where a valid reply reaches its source, a route to the destination is served afterwards, until
-- the new one expires, and it has no more hops than the new one; the discovery has ended, no
-- payload waits for the destination, and the one event says that the route is cached.
pub handle_rrep-accepts :
    (s : ProtocolState) (sender : SocketAddr) (r : Rrep) (clock : Clock) (now : ℕ)
    → ComesBack s.config sender r.trace_path
    → s.config.node_id ≡ r.src_node_id
    → now ≤ (route_of s r (clock 0)).expires_at_millis
    → let (t, actions) = handle_rrep s sender r clock in
      ((best : RouteEntry) × (shortest t.routes r.dst_node_id now ≡ some best)
        × (hop_count best ≤ hop_count (route_of s r (clock 0))))
      × (get r.dst_node_id t.discoveries ≡ none)
      × (filter (waits_for r.dst_node_id) t.pending_data ≡ [])
      × (actions.events ≡ route_cached s.config.node_id r.dst_node_id r.request_id ∷ [])
unfolding handle_rrep accept_rrep
handle_rrep-accepts s sender r clock now back mine live =
    let route = route_of s r (clock 0) in
    let valid = (validate_rrep_iff s.config sender r.trace_path).1 back in
    let f = flush_pending-IsFlushed (cache_route s r route) r.dst_node_id route (later clock) in
    let (best, served, shorter) = insert_route-served s route now live in
    let flushed = f.pending_data in
    let ended = f.discoveries in
    let routes = flush_pending-routes (cache_route s r route) r.dst_node_id route (later clock) in
    let dst = route_of-dst s r (clock 0) in
    (
      (best, ground (arith, valid, mine, served, routes, dst), shorter),
      ground (arith, valid, mine, ended, get-remove r.dst_node_id r.dst_node_id s.discoveries),
      ground (arith, valid, mine, flushed, nobody_waits r.dst_node_id s.pending_data),
      ground (arith, valid, mine),
    )

-- ===== src/Node/Rrep.antt =====
-- A route reply on its way back: `validate_rrep` and `handle_rrep`
-- (crates/dldsr-node/src/protocol.rs).
use dl_dsr_rs.Base.{
  ℕ, suc, List, [], ◌∷◌, Option, none, some, nat_eq, nat_beq, get_elem?, position, add_u64, Result,
  ok, err, ◌>>=◌, ◌>>◌, ok_or, ensure, if◌then◌else◌,
}
use dl_dsr_rs.HashMap.{remove}
use dl_dsr_rs.Core.Socket.{SocketAddr}
use dl_dsr_rs.Core.Packet.{dsr, dl_dsr, Rrep, rrep}
use dl_dsr_rs.Core.Topology.{NodeConfig}
use dl_dsr_rs.Core.Routes.{RouteEntry, new_dsr, insert_route}
use dl_dsr_rs.Node.State.{
  Clock, later, Reason, rrep_sender_unknown, rrep_sender_not_neighbor, rrep_not_in_trace,
  rrep_no_sender_hop, rrep_sender_mismatch, rrep_sender_not_adjacent, rrep_reverse_not_adjacent,
  route_cached, route_error, ProtocolActions, no_actions, send, emit, ProtocolState,
}
use dl_dsr_rs.Node.Lookup.{
  is_logical_neighbor, node_id_by_endpoint, are_adjacent, before, endpoint, previous_in_trace,
}
use dl_dsr_rs.Node.Origin.{flush_pending}

-- `if let Some(reverse_next) = ... { if !adjacent { return Err(...) } }`
unfoldable pub check_reverse : NodeConfig → Option ℕ → Result Reason (Unit {0})
check_reverse c none = ok tt
check_reverse c (some reverse_next) =
    ensure (are_adjacent c c.node_id reverse_next) (rrep_reverse_not_adjacent reverse_next)

-- `validate_rrep`. The index of a `Vec` plus one cannot overflow.
unfoldable pub validate_rrep : NodeConfig → SocketAddr → List ℕ → Result Reason (Unit {0})
validate_rrep c sender trace_path = do
  sender_node_id ← ok_or (node_id_by_endpoint c sender) (rrep_sender_unknown sender)
  ensure (is_logical_neighbor c sender_node_id) (rrep_sender_not_neighbor sender_node_id)
  p ← ok_or (position c.node_id trace_path) rrep_not_in_trace
  expected_sender ← ok_or (get_elem? trace_path (suc p)) rrep_no_sender_hop
  ensure (nat_beq sender_node_id expected_sender)
      (rrep_sender_mismatch sender_node_id expected_sender)
  ensure (are_adjacent c c.node_id expected_sender) (rrep_sender_not_adjacent expected_sender)
  check_reverse c (before p trace_path)

-- The route that the source caches.
unfoldable pub route_of : ProtocolState → Rrep → ℕ → RouteEntry
route_of s r now = elim s.config.protocol_mode [
  | dsr ↦ new_dsr r.dst_node_id r.dsr_path (add_u64 now s.config.route_cache_ttl_ms)
  | dl_dsr ↦ record {
    dst_node_id = r.dst_node_id;
    dsr_path = r.dsr_path;
    dldsr_label_path = r.dldsr_label_path;
    expires_at_millis = add_u64 now s.config.route_cache_ttl_ms;
  }
]

-- The state with the route cached and the discovery ended.
abbrev pub cache_route : ProtocolState → Rrep → RouteEntry → ProtocolState
cache_route s r route = record s {
  routes = insert_route s.routes route;
  discoveries = remove r.dst_node_id s.discoveries;
  metrics = record (s.metrics) {
    route_discovery_successes = add_u64 s.metrics.route_discovery_successes 1;
  };
}

-- `if self.config.node_id == src_node_id { ... }`
unfoldable pub accept_rrep : ProtocolState → Rrep → Clock → ProtocolState × ProtocolActions
accept_rrep s r clock =
    let route = route_of s r (clock 0) in
    let (t, outbound) = flush_pending (cache_route s r route) r.dst_node_id route (later clock) in
    (
      t,
      record {
        outbound = outbound;
        events = route_cached s.config.node_id r.dst_node_id r.request_id ∷ [];
      },
    )

-- The end of `handle_rrep`, at a node that is not the source.
unfoldable pub forward_rrep : ProtocolState → Rrep → ProtocolState × ProtocolActions
forward_rrep s r = elim (previous_in_trace r.trace_path s.config.node_id) [
  | none ↦ (s, no_actions)
  | some reverse_next ↦ elim (endpoint s.config reverse_next) [
    | none ↦ (s, no_actions)
    | some addr ↦ (
      record s {
        metrics = record (s.metrics) { rrep_forwarded = add_u64 s.metrics.rrep_forwarded 1 };
      },
      send no_actions (rrep r) addr,
    )
  ]
]

-- `handle_rrep`
unfoldable pub handle_rrep :
    ProtocolState → SocketAddr → Rrep → Clock → ProtocolState × ProtocolActions
handle_rrep s sender r clock = elim (validate_rrep s.config sender r.trace_path) [
  | err reason ↦ (
    record s {
      metrics = record (s.metrics) {
        rrep_dropped_invalid = add_u64 s.metrics.rrep_dropped_invalid 1;
      };
    },
    emit no_actions (route_error s.config.node_id r.dst_node_id reason),
  )
  | ok _ ↦
      if nat_beq s.config.node_id r.src_node_id then accept_rrep s r clock else forward_rrep s r
]

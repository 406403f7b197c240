-- ===== src/Node/Origin.antt =====
-- Payloads of the node's own: sent along a route, kept while a route is sought, or dropped
-- (crates/dldsr-node/src/protocol.rs).
use dl_dsr_rs.Base.{ℕ, ◌+◌, true, false, List, [], ◌∷◌, ◌++◌, none, some, nat_beq, add_u64}
use dl_dsr_rs.Core.Packet.{DataPacket, data_packet}
use dl_dsr_rs.Core.Routes.{RouteEntry}
use dl_dsr_rs.Node.State.{
  Clock, later, Reason, origin_lookup_failed, data_dropped, route_error, OutboundPacket,
  ProtocolActions, no_actions, send, emit, PendingData, ProtocolState,
}
use dl_dsr_rs.Node.Lookup.{next_data_endpoint}

-- `drop_data`
unfoldable pub drop_data : ProtocolState → ℕ → Reason → ProtocolState × ProtocolActions
drop_data s dst_node_id reason = (
  record s {
    metrics = record (s.metrics) {
      dropped_packets = add_u64 s.metrics.dropped_packets 1;
      data_dropped = add_u64 s.metrics.data_dropped 1;
    };
  },
  emit (emit no_actions (data_dropped s.config.node_id dst_node_id reason))
      (route_error s.config.node_id dst_node_id reason),
)

-- `lookup_packet` of `origin_data`.
unfoldable pub lookup_packet : ProtocolState → ℕ → List ℕ → RouteEntry → ℕ → DataPacket
lookup_packet s dst_node_id payload route now = record {
  src_node_id = s.config.node_id;
  dst_node_id = dst_node_id;
  sequence = s.next_sequence;
  protocol_mode = s.config.protocol_mode;
  route_cursor = 0;
  dsr_path = route.dsr_path;
  dldsr_label_path = route.dldsr_label_path;
  payload = payload;
  created_at_millis = now;
}

-- `origin_data`
unfoldable pub origin_data :
    ProtocolState → ℕ → List ℕ → RouteEntry → Clock → ProtocolState × ProtocolActions
origin_data s dst_node_id payload route clock =
    let packet = lookup_packet s dst_node_id payload route (clock 0) in
    let s' : ProtocolState = record s { next_sequence = add_u64 s.next_sequence 1 } in
    elim (next_data_endpoint s' packet) [
      | some endpoint ↦
          (s', send no_actions (data_packet (record packet { route_cursor = 1 })) endpoint)
      | none ↦ drop_data s' dst_node_id origin_lookup_failed
    ]

-- The loop of `flush_pending` over the queue: the state, the packets and the remaining queue.
-- `origin_data` does not touch the queue.
unfoldable pub flush_loop :
    ℕ
    → RouteEntry
    → List PendingData
    → Clock
    → ProtocolState
    → ProtocolState × List OutboundPacket × List PendingData
flush_loop dst route [] clock s = (s, [], [])
flush_loop dst route (p ∷ queue) clock s = elim (nat_beq p.dst_node_id dst) [
  | true ↦
      let (s', actions) = origin_data s dst p.payload route clock in
      let (t, outbound, remaining) = flush_loop dst route queue (later clock) s' in
      (t, actions.outbound ++ outbound, remaining)
  | false ↦
      let (t, outbound, remaining) = flush_loop dst route queue clock s in
      (t, outbound, p ∷ remaining)
]

-- `flush_pending`
unfoldable pub flush_pending :
    ProtocolState → ℕ → RouteEntry → Clock → ProtocolState × List OutboundPacket
flush_pending s dst_node_id route clock =
    let (t, outbound, remaining) = flush_loop dst_node_id route s.pending_data clock s in
    (record t { pending_data = remaining }, outbound)

-- The loop of `drop_pending_for_dst`: the count and the remaining queue. The count is a `usize`
-- below the length of the queue.
unfoldable pub drop_loop : ℕ → List PendingData → ℕ × List PendingData
drop_loop dst [] = (0, [])
drop_loop dst (p ∷ queue) =
    let (dropped, remaining) = drop_loop dst queue in
    elim (nat_beq p.dst_node_id dst) [
      | true ↦ (dropped + 1, remaining)
      | false ↦ (dropped, p ∷ remaining)
    ]

-- `drop_pending_for_dst`
unfoldable pub drop_pending_for_dst : ProtocolState → ℕ → ProtocolState × ℕ
drop_pending_for_dst s dst_node_id =
    let (dropped, remaining) = drop_loop dst_node_id s.pending_data in
    (record s { pending_data = remaining }, dropped)

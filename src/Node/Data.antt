-- ===== src/Node/Data.antt =====
-- Payloads on their way: `validate_data_delivery` and `handle_data`
-- (crates/dldsr-node/src/protocol.rs).
use dl_dsr_rs.Base.{
  ℕ, Bool, false, not, ◌&&◌, [], ◌∷◌, ◌++◌, Option, none, some, nat_eq, nat_beq, get_elem?, last?,
  length, position, add_u64, saturating_sub, Result, ok, err, ◌>>=◌, ◌>>◌, ok_or, ensure,
  if◌then◌else◌,
}
use dl_dsr_rs.Core.Socket.{SocketAddr}
use dl_dsr_rs.Core.Packet.{dsr, dl_dsr, mode_beq, DataPacket, data_packet}
use dl_dsr_rs.Core.Tables.{neighbor_by_label}
use dl_dsr_rs.Core.Topology.{NodeConfig}
use dl_dsr_rs.Node.State.{
  Clock, Reason, protocol_mode_mismatch, data_sender_unknown, data_sender_not_neighbor,
  dsr_cursor_mismatch, dsr_route_exhausted, dsr_next_hop_not_neighbor, label_path_exhausted,
  label_lookup_failed, dldsr_next_hop_not_neighbor, path_end_mismatch, path_misses_destination,
  delivery_cursor_mismatch, no_previous_hop, previous_hop_mismatch, label_cursor_mismatch,
  data_delivered, ProtocolActions, no_actions, send, emit, ProtocolState,
}
use dl_dsr_rs.Node.Lookup.{is_logical_neighbor, node_id_by_endpoint, before, endpoint}
use dl_dsr_rs.Node.Origin.{drop_data}

-- `path.last().copied() == Some(id)`, and the same of `path.get(i)`.
abbrev pub is_at : Option ℕ → ℕ → Bool
is_at none id = false
is_at (some x) id = nat_beq x id

-- `validate_data_delivery`
unfoldable pub validate_data_delivery : NodeConfig → ℕ → DataPacket → Result Reason (Unit {0})
validate_data_delivery c sender_node_id p = elim p.protocol_mode [
  | dsr ↦ do
    ensure (is_at (last? p.dsr_path) c.node_id) path_end_mismatch
    expected_position ← ok_or (position c.node_id p.dsr_path) path_misses_destination
    ensure (nat_beq p.route_cursor expected_position)
        (delivery_cursor_mismatch p.route_cursor expected_position)
    previous ← ok_or (before expected_position p.dsr_path) no_previous_hop
    ensure (nat_beq previous sender_node_id) (previous_hop_mismatch sender_node_id previous)
  | dl_dsr ↦
      ensure (nat_beq p.route_cursor (length p.dldsr_label_path))
        (label_cursor_mismatch p.route_cursor (length p.dldsr_label_path))
]

-- `if dst_node_id == self.config.node_id { ... }`
unfoldable pub deliver_data :
    ProtocolState → ℕ → DataPacket → Clock → ProtocolState × ProtocolActions
deliver_data s sender_node_id p clock = elim (validate_data_delivery s.config sender_node_id p) [
  | err reason ↦ drop_data s p.dst_node_id reason
  | ok _ ↦ (
    record s {
      metrics = record (s.metrics) {
        delivered_packets = add_u64 s.metrics.delivered_packets 1;
        data_delivered = add_u64 s.metrics.data_delivered 1;
        latency_samples_ms =
            s.metrics.latency_samples_ms ++ (saturating_sub (clock 0) p.created_at_millis ∷ []);
      };
    },
    emit no_actions
        (data_delivered s.config.node_id p.src_node_id p.dst_node_id p.sequence p.payload),
  )
]

-- The packet goes on to the next hop.
unfoldable pub pass_on : ProtocolState → DataPacket → SocketAddr → ProtocolState × ProtocolActions
pass_on s p addr = (
  record s { metrics = record (s.metrics) { data_forwarded = add_u64 s.metrics.data_forwarded 1 } },
  send no_actions (data_packet (record p { route_cursor = add_u64 p.route_cursor 1 })) addr,
)

-- The case `ProtocolMode::Dsr`. A packet whose next hop has no endpoint is neither sent nor
-- counted.
unfoldable pub forward_dsr : ProtocolState → DataPacket → ProtocolState × ProtocolActions
forward_dsr s p =
    if not (is_at (get_elem? p.dsr_path p.route_cursor) s.config.node_id)
    then drop_data s p.dst_node_id dsr_cursor_mismatch
    else elim (get_elem? p.dsr_path (add_u64 p.route_cursor 1)) [
      | none ↦ drop_data s p.dst_node_id dsr_route_exhausted
      | some next ↦
          if not (is_logical_neighbor s.config next)
          then drop_data s p.dst_node_id (dsr_next_hop_not_neighbor next)
          else elim (endpoint s.config next) [
            | none ↦ (s, no_actions)
            | some addr ↦ pass_on s p addr
          ]
    ]

-- The case `ProtocolMode::DlDsr`.
unfoldable pub forward_dldsr : ProtocolState → DataPacket → ProtocolState × ProtocolActions
forward_dldsr s p = elim (get_elem? p.dldsr_label_path p.route_cursor) [
  | none ↦ drop_data s p.dst_node_id label_path_exhausted
  | some label ↦ elim (neighbor_by_label s.neighbors label) [
    | none ↦ drop_data s p.dst_node_id (label_lookup_failed label)
    | some entry ↦
        if not (is_logical_neighbor s.config entry.node_id)
        then drop_data s p.dst_node_id (dldsr_next_hop_not_neighbor entry.node_id)
        else pass_on s p entry.endpoint
  ]
]

-- `match protocol_mode { ... }`
unfoldable pub forward_data : ProtocolState → DataPacket → ProtocolState × ProtocolActions
forward_data s p = elim p.protocol_mode [ dsr ↦ forward_dsr s p | dl_dsr ↦ forward_dldsr s p ]

-- `handle_data`
unfoldable pub handle_data :
    ProtocolState → SocketAddr → DataPacket → Clock → ProtocolState × ProtocolActions
handle_data s sender p clock =
    if s.config.strict_protocol_mode && not (mode_beq p.protocol_mode s.config.protocol_mode)
    then drop_data s p.dst_node_id (protocol_mode_mismatch p.protocol_mode s.config.protocol_mode)
    else elim (node_id_by_endpoint s.config sender) [
      | none ↦ drop_data s p.dst_node_id (data_sender_unknown sender)
      | some sender_node_id ↦
          if not (is_logical_neighbor s.config sender_node_id)
          then drop_data s p.dst_node_id (data_sender_not_neighbor sender_node_id)
          else if nat_beq p.dst_node_id s.config.node_id
          then deliver_data s sender_node_id p clock
          else forward_data s p
    ]

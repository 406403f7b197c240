-- ===== src/Node/State.antt =====
-- The state of a node, and what a handler asks the daemon to do (crates/dldsr-node/src/protocol.rs).
use dl_dsr_rs.Base.{ℕ, suc, List, [], ◌∷◌, ◌++◌, Bool, true, false, ok, err}
use dl_dsr_rs.HashMap.{HashMap}
use dl_dsr_rs.Core.Socket.{SocketAddr}
use dl_dsr_rs.Core.Packet.{
  ProtocolMode, Packet, hello, hello_reply, rreq, rrep, data_packet, ack, error_packet, Codec,
  encoded_len,
}
use dl_dsr_rs.Core.Topology.{NodeConfig}
use dl_dsr_rs.Core.Tables.{NeighborTable, LabelTable, empty_neighbors, empty_labels}
use dl_dsr_rs.Core.Routes.{RouteCache, empty_routes}
use dl_dsr_rs.Core.Seen.{SeenRequests, empty_seen}
use dl_dsr_rs.Core.Metrics.{NodeMetrics, no_metrics, record_tx, record_rx}

-- The readings of `now_millis()` that a handler makes, in their order.
abbrev pub Clock : Type 0
Clock = ℕ → ℕ

-- The readings after the first.
abbrev pub later : Clock → Clock
later clock i = clock (suc i)

-- The reasons that the code formats as text: one constructor for each message, with the values
-- that the message shows.
pub data Reason : Type 0 where
  protocol_mode_mismatch : (packet node : ProtocolMode) → Reason
  data_sender_unknown : SocketAddr → Reason
  data_sender_not_neighbor : ℕ → Reason
  dsr_cursor_mismatch : Reason
  dsr_route_exhausted : Reason
  dsr_next_hop_not_neighbor : ℕ → Reason
  label_path_exhausted : Reason
  label_lookup_failed : ℕ → Reason
  dldsr_next_hop_not_neighbor : ℕ → Reason
  origin_lookup_failed : Reason
  discovery_failed : Reason
  rrep_sender_unknown : SocketAddr → Reason
  rrep_sender_not_neighbor : ℕ → Reason
  rrep_not_in_trace : Reason
  rrep_no_sender_hop : Reason
  rrep_sender_mismatch : (sender expected : ℕ) → Reason
  rrep_sender_not_adjacent : ℕ → Reason
  rrep_reverse_not_adjacent : ℕ → Reason
  path_end_mismatch : Reason
  path_misses_destination : Reason
  delivery_cursor_mismatch : (cursor expected : ℕ) → Reason
  no_previous_hop : Reason
  previous_hop_mismatch : (sender previous : ℕ) → Reason
  label_cursor_mismatch : (cursor len : ℕ) → Reason

pub data ProtocolCommand : Type 0 where
  discover_and_send : (dst_node_id : ℕ) (payload : List ℕ) → ProtocolCommand

pub data ProtocolEvent : Type 0 where
  route_cached : (node_id dst_node_id request_id : ℕ) → ProtocolEvent
  data_delivered : (node_id src_node_id dst_node_id sequence : ℕ) (payload : List ℕ) → ProtocolEvent
  route_discovery_failed : (node_id dst_node_id attempts : ℕ) → ProtocolEvent
  data_dropped : (node_id dst_node_id : ℕ) (reason : Reason) → ProtocolEvent
  route_error : (node_id dst_node_id : ℕ) (reason : Reason) → ProtocolEvent

pub record OutboundPacket : Type 0 where
  pub packet : Packet
  pub dst : SocketAddr

pub record ProtocolActions : Type 0 where
  pub outbound : List OutboundPacket
  pub events : List ProtocolEvent

-- `ProtocolActions::default()`
abbrev pub no_actions : ProtocolActions
no_actions = record { outbound = []; events = [] }

-- `ProtocolActions::send`
abbrev pub send : ProtocolActions → Packet → SocketAddr → ProtocolActions
send a packet dst = record a {
  outbound = a.outbound ++ (record { packet = packet; dst = dst } ∷ []);
}

-- `actions.events.push(event)`
abbrev pub emit : ProtocolActions → ProtocolEvent → ProtocolActions
emit a event = record a { events = a.events ++ (event ∷ []) }

pub record PendingData : Type 0 where
  pub dst_node_id : ℕ
  pub payload : List ℕ

pub record DiscoveryState : Type 0 where
  pub request_id : ℕ
  pub last_sent_millis : ℕ
  pub retries_done : ℕ

pub record ProtocolState : Type 0 where
  pub config : NodeConfig
  pub neighbors : NeighborTable
  pub labels : LabelTable
  pub routes : RouteCache
  pub metrics : NodeMetrics
  pub seen_requests : SeenRequests
  pub pending_data : List PendingData
  pub discoveries : HashMap ℕ DiscoveryState
  pub next_request_id : ℕ
  pub next_sequence : ℕ

-- `ProtocolState::new`
unfoldable pub new : NodeConfig → ProtocolState
new config = record {
  config = config;
  neighbors = empty_neighbors;
  labels = empty_labels;
  routes = empty_routes;
  metrics = no_metrics;
  seen_requests = empty_seen;
  pending_data = [];
  discoveries = [];
  next_request_id = 1;
  next_sequence = 1;
}

-- `is_control_packet`
unfoldable pub is_control_packet : Packet → Bool
is_control_packet (hello _) = true
is_control_packet (hello_reply _) = true
is_control_packet (rreq _) = true
is_control_packet (rrep _) = true
is_control_packet (data_packet _) = false
is_control_packet (ack _) = false
is_control_packet (error_packet _) = false

-- `ProtocolState::record_rx`
unfoldable pub record_rx_bytes : ProtocolState → ℕ → ProtocolState
record_rx_bytes s bytes = record s { metrics = record_rx s.metrics bytes }

-- `ProtocolState::record_tx`
unfoldable pub record_tx_packet : Codec → ProtocolState → Packet → ProtocolState
record_tx_packet c s packet = elim (encoded_len c packet) [
  | err _ ↦ s
  | ok bytes ↦ record s { metrics = record_tx s.metrics bytes (is_control_packet packet) }
]

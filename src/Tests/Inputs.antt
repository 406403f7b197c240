-- ===== src/Tests/Inputs.antt =====
-- The configurations and packets of the unit tests of crates/dldsr-node/src/protocol.rs.
use dl_dsr_rs.Base.{ℕ, ◌+◌, true, [], ◌∷◌, none}
use dl_dsr_rs.Core.Socket.{SocketAddr, v4, bytes}
use dl_dsr_rs.Core.Packet.{ProtocolMode, Rreq}
use dl_dsr_rs.Core.Topology.{Topology, NodeConfig, localhost}

abbrev pub addr : ℕ → SocketAddr
addr port = v4 localhost port

abbrev pub chain_topology : Topology
chain_topology = record {
  nodes =
      record { node_id = 0; endpoint = addr 7000; neighbors = 1 ∷ [] }
      ∷ record { node_id = 1; endpoint = addr 7001; neighbors = 0 ∷ 2 ∷ [] }
      ∷ record { node_id = 2; endpoint = addr 7002; neighbors = 1 ∷ 3 ∷ [] }
      ∷ record { node_id = 3; endpoint = addr 7003; neighbors = 2 ∷ [] }
      ∷ [];
}

abbrev pub chain_config : ℕ → ProtocolMode → NodeConfig
chain_config node_id mode = record {
  node_id = node_id;
  bind_addr = addr (7000 + node_id);
  protocol_mode = mode;
  hello_interval_ms = 200;
  route_cache_ttl_ms = 30000;
  neighbor_ttl_ms = 5000;
  log_level = bytes "info";
  topology = chain_topology;
  demo_send = none;
  route_discovery_timeout_ms = 10;
  route_discovery_max_retries = 1;
  max_rreq_hops = 4;
  seen_request_ttl_ms = 60000;
  seen_request_max_entries = 10000;
  metrics_output_path = none;
  control_bind_addr = none;
  strict_protocol_mode = true;
}

abbrev pub rreq_at : ℕ → Rreq
rreq_at hop_count = record {
  src_node_id = 0;
  dst_node_id = 3;
  request_id = 77;
  previous_hop = 0;
  hop_count = hop_count;
  dsr_path = 0 ∷ [];
  dldsr_label_path = [];
  trace_path = 0 ∷ [];
  created_at_millis = 5;
}

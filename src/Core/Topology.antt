-- ===== src/Core/Topology.antt =====
-- The topology and the configuration of a node (crates/dldsr-core/src/topology.rs).
pub mod Chain
use dl_dsr_rs.Base.{
  ℕ, zero, suc, ◌+◌, ◌-◌, ◌%◌, ◌^◌, Bool, true, List, [], ◌∷◌, ◌++◌, Option, find?, nat_beq, nat_eq,
  foldl, ltb, add_u16, map, if◌then◌else◌,
}
use dl_dsr_rs.HashMap.{HashMap, insert}
use dl_dsr_rs.Core.Socket.{SocketAddr, v4, Text, bytes}
use dl_dsr_rs.Core.Packet.{ProtocolMode}

pub record TopologyNode : Type 0 where
  pub node_id : ℕ
  pub endpoint : SocketAddr
  pub neighbors : List ℕ

pub record Topology : Type 0 where
  pub nodes : List TopologyNode

pub record DemoSendConfig : Type 0 where
  pub dst_node_id : ℕ
  pub payload : Text
  pub start_after_ms : ℕ

pub record NodeConfig : Type 0 where
  pub node_id : ℕ
  pub bind_addr : SocketAddr
  pub protocol_mode : ProtocolMode
  pub hello_interval_ms : ℕ
  pub route_cache_ttl_ms : ℕ
  pub neighbor_ttl_ms : ℕ
  pub log_level : Text
  pub topology : Topology
  pub demo_send : Option DemoSendConfig
  pub route_discovery_timeout_ms : ℕ
  pub route_discovery_max_retries : ℕ
  pub max_rreq_hops : ℕ
  pub seen_request_ttl_ms : ℕ
  pub seen_request_max_entries : ℕ
  pub metrics_output_path : Option Text
  pub control_bind_addr : Option SocketAddr
  pub strict_protocol_mode : Bool

abbrev pub default_hello_interval_ms : ℕ
default_hello_interval_ms = 800

abbrev pub default_route_cache_ttl_ms : ℕ
default_route_cache_ttl_ms = 30000

abbrev pub default_neighbor_ttl_ms : ℕ
default_neighbor_ttl_ms = 5000

abbrev pub default_log_level : Text
default_log_level = bytes "info"

abbrev pub default_route_discovery_timeout_ms : ℕ
default_route_discovery_timeout_ms = 2000

abbrev pub default_route_discovery_max_retries : ℕ
default_route_discovery_max_retries = 3

abbrev pub default_max_rreq_hops : ℕ
default_max_rreq_hops = 64

abbrev pub default_seen_request_ttl_ms : ℕ
default_seen_request_ttl_ms = 60000

abbrev pub default_seen_request_max_entries : ℕ
default_seen_request_max_entries = 10000

abbrev pub default_strict_protocol_mode : Bool
default_strict_protocol_mode = true

-- The integers from `i`, `n` of them: `i..i + n`.
abbrev pub count_up : ℕ → ℕ → List ℕ
count_up i zero = []
count_up i (suc n) = i ∷ count_up (suc i) n

-- The address of 127.0.0.1.
abbrev pub localhost : ℕ
localhost = 0x7f000001

-- The closure of `Topology::chain`; `as` narrows an integer.
unfoldable pub chain_node : ℕ → ℕ → ℕ → TopologyNode
chain_node nodes base_port idx = record {
  node_id = idx % 2 ^ 32;
  endpoint = v4 localhost (add_u16 base_port (idx % 2 ^ 16));
  neighbors =
      (if ltb 0 idx then ((idx - 1) % 2 ^ 32) ∷ [] else [])
      ++ (if ltb (idx + 1) nodes then ((idx + 1) % 2 ^ 32) ∷ [] else []);
}

-- `Topology::chain`
unfoldable pub chain : ℕ → ℕ → Topology
chain nodes base_port = record { nodes = map (chain_node nodes base_port) (count_up 0 nodes) }

-- `Topology::node`
unfoldable pub node : Topology → ℕ → Option TopologyNode
node t node_id = find? (λ n. nat_beq n.node_id node_id) t.nodes

-- `Topology::endpoints`: of two nodes with one id, the later one's address stays.
unfoldable pub endpoints : Topology → HashMap ℕ SocketAddr
endpoints t = foldl (λ m (n : TopologyNode). insert n.node_id n.endpoint m) [] t.nodes

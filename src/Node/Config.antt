-- ===== src/Node/Config.antt =====
-- The command line and the configuration (crates/dldsr-node/src/cli.rs, config.rs). What `clap`
-- makes of the arguments is the input; the file system and the TOML parser are parameters.
pub mod Loaded
use dl_dsr_rs.Base.{ℕ, List, Option, none, some, Result, ok, err, ◌>>=◌, ◌>>◌, ok_or}
use mathlib.Core.Option
use dl_dsr_rs.Core.Socket.{SocketAddr, Text, bytes}
use dl_dsr_rs.Core.Packet.{ProtocolMode, dl_dsr}
use dl_dsr_rs.Core.Topology.{
  TopologyNode, Topology, NodeConfig, DemoSendConfig, node, default_hello_interval_ms,
  default_route_cache_ttl_ms, default_neighbor_ttl_ms, default_route_discovery_timeout_ms,
  default_route_discovery_max_retries, default_max_rreq_hops, default_seen_request_ttl_ms,
  default_seen_request_max_entries, default_strict_protocol_mode,
}

-- `Command`
pub data Command : Type 0 where
  send_payload : (control_addr : SocketAddr) (dst : ℕ) (payload : Text) → Command

-- `Cli`
pub record Cli : Type 0 where
  pub command : Option Command
  pub config : Option Text
  pub node_id : Option ℕ
  pub bind : Option SocketAddr
  pub topology : Option Text
  pub mode : Option ProtocolMode
  pub send_dst : Option ℕ
  pub payload : Option Text
  pub send_after_ms : ℕ

-- What `load` reports: the texts of its `context` calls, with the path and the cause.
pub data LoadError : Type 0 where
  read_config : (path cause : Text) → LoadError
  parse_config : (path cause : Text) → LoadError
  topology_required : LoadError
  read_topology : (path cause : Text) → LoadError
  parse_topology : (path cause : Text) → LoadError
  node_id_required : LoadError
  bind_not_supplied : LoadError

-- `fs::read_to_string` and `toml::from_str`, at the two types that are read.
pub record Host : Type 0 where
  pub read_to_string : Text → Result Text Text
  pub config_from_str : Text → Result Text NodeConfig
  pub topology_from_str : Text → Result Text Topology

-- `.with_context(...)`
abbrev pub with_context : {A : Type 0} → (Text → LoadError) → Result Text A → Result LoadError A
with_context f (ok a) = ok a
with_context f (err cause) = err (f cause)

-- `o.or_else(|| p)`
abbrev pub or_else : Option SocketAddr → Option SocketAddr → Option SocketAddr
or_else none p = p
or_else (some a) p = some a

-- `cli.send_dst.map(...)`
abbrev pub demo_of : Cli → Option DemoSendConfig
demo_of cli =
    Option.map
      (λ dst. record {
        dst_node_id = dst;
        payload = elim cli.payload [ none ↦ bytes "hello from dl-dsr-rs" | some text ↦ text ];
        start_after_ms = cli.send_after_ms;
      })
      cli.send_dst

-- The configuration at the end of `load`.
abbrev pub config_of : Cli → Topology → ℕ → SocketAddr → NodeConfig
config_of cli topology node_id bind_addr = record {
  node_id = node_id;
  bind_addr = bind_addr;
  protocol_mode = elim cli.mode [ none ↦ dl_dsr | some m ↦ m ];
  hello_interval_ms = default_hello_interval_ms;
  route_cache_ttl_ms = default_route_cache_ttl_ms;
  neighbor_ttl_ms = default_neighbor_ttl_ms;
  log_level = bytes "info";
  topology = topology;
  demo_send = demo_of cli;
  route_discovery_timeout_ms = default_route_discovery_timeout_ms;
  route_discovery_max_retries = default_route_discovery_max_retries;
  max_rreq_hops = default_max_rreq_hops;
  seen_request_ttl_ms = default_seen_request_ttl_ms;
  seen_request_max_entries = default_seen_request_max_entries;
  metrics_output_path = none;
  control_bind_addr = none;
  strict_protocol_mode = default_strict_protocol_mode;
}

module _ (host : Host) where
  -- `if let Some(path) = cli.config { ... }`
  unfoldable pub load_file : Text → Result LoadError NodeConfig
  load_file path = do
    text ← with_context (read_config path) (host.read_to_string path)
    with_context (parse_config path) (host.config_from_str text)

  -- The rest of `load`.
  unfoldable pub load_topology : Cli → Result LoadError NodeConfig
  load_topology cli = do
    path ← ok_or cli.topology topology_required
    text ← with_context (read_topology path) (host.read_to_string path)
    topology ← with_context (parse_topology path) (host.topology_from_str text)
    node_id ← ok_or cli.node_id node_id_required
    bind_addr ←
        ok_or
          (or_else cli.bind (Option.map (λ (n : TopologyNode). n.endpoint) (node topology node_id)))
          bind_not_supplied
    ok (config_of cli topology node_id bind_addr)

  -- `load`
  unfoldable pub load : Cli → Result LoadError NodeConfig
  load cli = elim cli.config [ some path ↦ load_file path | none ↦ load_topology cli ]

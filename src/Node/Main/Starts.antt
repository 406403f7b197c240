-- ===== src/Node/Main/Starts.antt =====
-- The start of a node of a chain.
use dl_dsr_rs.Base.{
  ℕ, ◌+◌, ◌≤◌, ◌<◌, ◌^◌, ◌≡◌, ◌⊎◌, inl, inr, refl, true, false, none, some, Result, ok,
}
use dl_dsr_rs.Core.Socket.{v4, Text, bytes}
use dl_dsr_rs.Core.Packet.{ProtocolMode, dl_dsr}
use dl_dsr_rs.Core.Topology.{NodeConfig, chain, localhost}
use dl_dsr_rs.Core.Topology.Chain.{link}
use dl_dsr_rs.Node.State.{new, discover_and_send}
use dl_dsr_rs.Node.Lookup.{logical_neighbors}
use dl_dsr_rs.Node.Config.{Cli, Host}
use dl_dsr_rs.Node.Config.Loaded.{load-chain}
use dl_dsr_rs.Node.Request.{Json}
use dl_dsr_rs.Node.Control.{ControlDatagram}
use dl_dsr_rs.Node.Startup.{Bind, demo, run_with_channels, run}
use dl_dsr_rs.Node.Main.{started, main}

-- Let the topology file read and parse as a chain whose last port fits in 16 bits, with no
-- command, no configuration file and no address given, let the node be one of the chain, let its
-- address be free, and let the command line name a destination for the demo. Then the program
-- runs a new node with the address of its place on the chain and the defaults written out below,
-- in the mode of the command line or else with labels; its only source of commands is a demo
-- that, after the delay of the command line, sends the payload of the command line, or else the
-- greeting, to the destination; it has no control socket; and its neighbours are the numbers
-- before and after it on the chain.
pub main-chain :
    (host : Host) (json : Json) (bind : Bind) (send_to : ControlDatagram → Result Text (Unit {0}))
    (cli : Cli) (path text payload : Text) (mode : ProtocolMode) (nodes base_port i dst : ℕ)
    → cli.command ≡ none
    → cli.config ≡ none
    → cli.topology ≡ some path
    → host.read_to_string path ≡ ok text
    → host.topology_from_str text ≡ ok (chain nodes base_port)
    → cli.node_id ≡ some i
    → cli.bind ≡ none
    → (cli.mode ≡ some mode) ⊎ ((cli.mode ≡ none) × (mode ≡ dl_dsr))
    → cli.send_dst ≡ some dst
    → (cli.payload ≡ some payload)
      ⊎ ((cli.payload ≡ none) × (payload ≡ bytes "hello from dl-dsr-rs"))
    → bind (v4 localhost (base_port + i)) ≡ ok tt
    → i < nodes
    → base_port + nodes ≤ 2 ^ 16
    → let config : NodeConfig = record {
      node_id = i;
      bind_addr = v4 localhost (base_port + i);
      protocol_mode = mode;
      hello_interval_ms = 800;
      route_cache_ttl_ms = 30000;
      neighbor_ttl_ms = 5000;
      log_level = bytes "info";
      topology = chain nodes base_port;
      demo_send =
          some
            (record { dst_node_id = dst; payload = payload; start_after_ms = cli.send_after_ms });
      route_discovery_timeout_ms = 2000;
      route_discovery_max_retries = 3;
      max_rreq_hops = 64;
      seen_request_ttl_ms = 60000;
      seen_request_max_entries = 10000;
      metrics_output_path = none;
      control_bind_addr = none;
      strict_protocol_mode = true;
    } in
      (main host json bind send_to cli
        ≡ ok (
            started (record {
              state = new config;
              commands = demo (record {
                delay_ms = cli.send_after_ms;
                command = discover_and_send dst payload;
              });
              has_control_socket = false;
            })))
      × (logical_neighbors config ≡ (link nodes base_port i).neighbors)
unfolding main run run_with_channels
main-chain host json bind send_to cli path text payload mode nodes base_port i dst node_ no_file
      where_ read parsed id unbound in_mode to what bound lt small =
    let (loaded, near) =
      load-chain host cli path text nodes base_port i no_file where_ read parsed id unbound lt
        small in
    elim in_mode [
      | inl m ↦ elim what [
        | inl w ↦ (rw (node_, loaded, bound, main, m, to, w) refl, rw (← near, m, to, w) refl)
        | inr (w, e) ↦
            (rw (node_, loaded, bound, main, m, to, w, e) refl, rw (← near, m, to, w, e) refl)
      ]
      | inr (m, d) ↦ elim what [
        | inl w ↦ (rw (node_, loaded, bound, main, m, d, to, w) refl, rw (← near, m, d, to, w) refl)
        | inr (w, e) ↦
            (rw (node_, loaded, bound, main, m, d, to, w, e) refl, rw (← near, m, d, to, w, e) refl)
      ]
    ]

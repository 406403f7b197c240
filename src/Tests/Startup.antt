-- ===== src/Tests/Startup.antt =====
-- The theorems on the start of a node, and on what a table of seen requests promises.
use dl_dsr_rs.Base.{
  ℕ, ◌++◌, take, drop, length, inl, inr, ◌≡◌, refl, true, false, List, [], ◌∷◌, none, some, Result,
  ok, err, arith,
}
use dl_dsr_rs.Core.Socket.{SocketAddr, Text, v4, bytes}
use dl_dsr_rs.Core.Topology.{chain, localhost}
use dl_dsr_rs.Core.Topology.Chain.{link}
use dl_dsr_rs.Core.Seen.{empty_seen}
use dl_dsr_rs.Core.Seen.Window.{Arrival, answers, verdicts, verdicts_new_refine}
use dl_dsr_rs.Node.Lookup.{logical_neighbors}
use dl_dsr_rs.Node.Config.{Cli, Host, send_payload}
use dl_dsr_rs.Node.State.{ProtocolState, new, discover_and_send}
use dl_dsr_rs.Node.Handle.{handle_command}
use dl_dsr_rs.Node.Control.{
  ControlDatagram, send_request, receive_control, receive_control-send_request,
}
use dl_dsr_rs.Node.Startup.{Bind, demo}
use dl_dsr_rs.Node.Main.{main, started}
use dl_dsr_rs.Node.Request.{number, string, Document, object, Json}
use dl_dsr_rs.Tests.Wire.{three}
use dl_dsr_rs.Core.Topology.{NodeConfig}
use dl_dsr_rs.Core.Packet.{dl_dsr}
use dl_dsr_rs.Node.Main.Starts.{main-chain}
use dl_dsr_rs.Tests.Program.{program}

-- A host whose one file is the topology of a chain of four nodes.
abbrev host : Host
host = record {
  read_to_string = λ path. ok (bytes "chain");
  config_from_str = λ text. err (bytes "missing field");
  topology_from_str = λ text. ok (chain 4 7000);
}

abbrev third : Cli
third = record {
  command = none;
  config = none;
  node_id = some 2;
  bind = none;
  topology = some (bytes "chain.toml");
  mode = none;
  send_dst = some 0;
  payload = none;
  send_after_ms = 2000;
}

-- The text of an object of a number and a string: the lengths of the keys, the number, the keys
-- and the string.
abbrev to_string : Document → List ℕ
to_string (object ((j, number n) ∷ (k, string text) ∷ [])) =
    length j ∷ length k ∷ n ∷ (j ++ (k ++ text))
to_string _ = []

abbrev from_slice : List ℕ → Result Text Document
from_slice (a ∷ b ∷ n ∷ rest) =
    ok (
      object ((take a rest, number n) ∷ (take b (drop a rest), string (drop b (drop a rest))) ∷ []))
from_slice _ = err (bytes "EOF while parsing a value")

from_slice-to_string :
    (j k text : Text) (n : ℕ)
    → from_slice (to_string (object ((j, number n) ∷ (k, string text) ∷ [])))
      ≡ ok (object ((j, number n) ∷ (k, string text) ∷ []))
from_slice-to_string j k text n = ground (arith, three j k text)

abbrev json : Json
json = record {
  to_string = to_string;
  from_slice = from_slice;
  describe = λ fault. bytes "invalid request";
  from_slice-to_string = λ j k text n ne small. inl (from_slice-to_string j k text n);
}

abbrev free : Bind
free a = ok tt

abbrev delivers : ControlDatagram → Result Text (Unit {0})
delivers d = ok tt

abbrev third_config : NodeConfig
third_config = record {
  node_id = 2;
  bind_addr = v4 localhost 7002;
  protocol_mode = dl_dsr;
  hello_interval_ms = 800;
  route_cache_ttl_ms = 30000;
  neighbor_ttl_ms = 5000;
  log_level = bytes "info";
  topology = chain 4 7000;
  demo_send =
      some
        (record { dst_node_id = 0; payload = bytes "hello from dl-dsr-rs"; start_after_ms = 2000 });
  route_discovery_timeout_ms = 2000;
  route_discovery_max_retries = 3;
  max_rreq_hops = 64;
  seen_request_ttl_ms = 60000;
  seen_request_max_entries = 10000;
  metrics_output_path = none;
  control_bind_addr = none;
  strict_protocol_mode = true;
}

main-chain_example :
    (main host json free delivers third
      ≡ ok (
          started (record {
            state = new third_config;
            commands = demo (record {
              delay_ms = 2000;
              command = discover_and_send 0 (bytes "hello from dl-dsr-rs");
            });
            has_control_socket = false;
          })))
    × (logical_neighbors third_config ≡ (link 4 7000 2).neighbors)
main-chain_example =
    main-chain host json free delivers third (bytes "chain.toml") (bytes "chain")
      (bytes "hello from dl-dsr-rs") dl_dsr 4 7000 2 0 refl refl refl refl refl refl refl
      (inr (refl, refl)) refl (inr (refl, refl)) refl (omega arith) (omega arith)

abbrev state : ProtocolState
state = new third_config

abbrev client : SocketAddr
client = v4 localhost 50000

receive_control-send_request_example :
    let request = send_request json (send_payload (v4 localhost 9000) 3 (bytes "hi")) in
    (request.to ≡ v4 localhost 9000)
    × ((receive_control json state request.content client (λ i. i)).replies
        ≡ record { content = bytes "{\"status\":\"accepted\"}"; to = client } ∷ [])
    × ((
      (receive_control json state request.content client (λ i. i)).state,
      (receive_control json state request.content client (λ i. i)).actions,
    )
        ≡ handle_command state (discover_and_send 3 (bytes "hi")) (λ i. i))
unfolding send_request
receive_control-send_request_example =
    receive_control-send_request json state (v4 localhost 9000) client 3 (bytes "hi") (λ i. i)
      (omega arith) (omega arith)

-- A request that comes again in time, and once more too late.
abbrev arrivals : List Arrival
arrivals =
    record { key = (0, 1); now = 5 }
    ∷ record { key = (0, 1); now = 9 }
    ∷ record { key = (2, 1); now = 9 }
    ∷ record { key = (0, 1); now = 30 }
    ∷ []

verdicts_new_refine_example : verdicts 10 4 arrivals empty_seen ≡ answers 10 arrivals (λ _. none)
verdicts_new_refine_example =
    verdicts_new_refine 10 4 5 arrivals
      (omega arith, (omega arith, (omega arith, (omega arith, tt)))) (omega arith)

arrivals-verdicts : verdicts 10 4 arrivals empty_seen ≡ true ∷ false ∷ true ∷ true ∷ []
unfolding program verdicts
arrivals-verdicts = refl

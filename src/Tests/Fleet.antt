-- ===== src/Tests/Fleet.antt =====
-- The theorems on a whole network, at a chain of two nodes that exchange labels and find a route.
use dl_dsr_rs.Base.{
  zero, suc, ℕ, ◌+◌, ◌≡◌, refl, ◌∙◌, sym, Bool, true, [], ◌∷◌, none, some, ◌<◌, arith,
}
use dl_dsr_rs.Core.Socket.{SocketAddr, v4, bytes}
use dl_dsr_rs.Core.Packet.{dl_dsr, hello, hello_reply, rreq, rrep, data_packet, DataPacket}
use dl_dsr_rs.Core.Topology.{NodeConfig, chain, localhost}
use dl_dsr_rs.Core.Routes.{RouteEntry}
use dl_dsr_rs.Node.Lookup.{is_logical_neighbor, node_id_by_endpoint}
use dl_dsr_rs.Node.Origin.{lookup_packet}
use dl_dsr_rs.Node.Discovery.{discover_and_send_data}
use dl_dsr_rs.Network.Journey.{at_cursor, only_send, Delivers}
use dl_dsr_rs.Network.Truth.{IsTrueRoute}
use dl_dsr_rs.Network.System.Truths.{shortest_is_true}
use dl_dsr_rs.Network.System.Delivery.{served_route_delivers}
use dl_dsr_rs.Network.System.Provenance.{Asked, sent_was_asked}
use dl_dsr_rs.Node.State.{Clock, discover_and_send}
use dl_dsr_rs.Node.Daemon.{hello_tick, received, command}
use dl_dsr_rs.Node.Config.{Cli, config_of}
use dl_dsr_rs.Node.Config.Loaded.{
  is_logical_neighbor-chain, next_to_comm, next_to_self, node_id_by_endpoint-chain,
}
use dl_dsr_rs.Network.System.{
  Datagram, System, act, Arises, Step, init, Reach, Later, IsFleet, Means,
}
use dl_dsr_rs.Tests.Wire.{write, wire}
use dl_dsr_rs.Tests.Program.{program}

abbrev cli : Cli
cli = record {
  command = none;
  config = none;
  node_id = none;
  bind = none;
  topology = none;
  mode = none;
  send_dst = none;
  payload = none;
  send_after_ms = 3000;
}

abbrev at : ℕ → SocketAddr
at n = v4 localhost (7000 + n)

abbrev conf : ℕ → NodeConfig
conf n = config_of cli (chain 2 7000) n (at n)

abbrev yes : ℕ → Bool
yes i = true

abbrev clock : ℕ → Clock
clock t i = t + i

fleet : IsFleet conf
fleet = record {
  id = λ n. refl;
  mode = λ n. refl;
  alone = λ n. is_logical_neighbor-chain cli 2 7000 n n (at n) (omega arith) ∙ next_to_self 2 n;
}

abbrev s1 : System
s1 = act wire conf at (init wire conf at) 1 yes hello_tick (clock 10)

abbrev d0 : Datagram
d0 = record {
  src = at 1;
  dst = at 0;
  packet = hello (record { src_node_id = 1; timestamp_millis = 10 });
}

abbrev s2 : System
s2 = act wire conf at s1 0 yes (received (write d0.packet) (at 1)) (clock 20)

abbrev d1 : Datagram
d1 = record {
  src = at 0;
  dst = at 1;
  packet = hello_reply (record {
    src_node_id = 0;
    dst_node_id = 1;
    assigned_label = 1;
    update_flag = true;
    timestamp_millis = 21;
  });
}

abbrev s3 : System
s3 = act wire conf at s2 1 yes (received (write d1.packet) (at 0)) (clock 30)

abbrev s4 : System
s4 = act wire conf at s3 0 yes (command (discover_and_send 1 (bytes "hi"))) (clock 40)

abbrev d2 : Datagram
d2 = record {
  src = at 0;
  dst = at 1;
  packet = rreq (record {
    src_node_id = 0;
    dst_node_id = 1;
    request_id = 1;
    previous_hop = 0;
    hop_count = 0;
    dsr_path = 0 ∷ [];
    dldsr_label_path = [];
    trace_path = 0 ∷ [];
    created_at_millis = 41;
  });
}

abbrev s5 : System
s5 = act wire conf at s4 1 yes (received (write d2.packet) (at 0)) (clock 50)

abbrev d3 : Datagram
d3 = record {
  src = at 1;
  dst = at 0;
  packet = rrep (record {
    src_node_id = 0;
    dst_node_id = 1;
    request_id = 1;
    dsr_path = 0 ∷ 1 ∷ [];
    dldsr_label_path = 1 ∷ [];
    trace_path = 0 ∷ 1 ∷ [];
    created_at_millis = 41;
  });
}

abbrev s6 : System
s6 = act wire conf at s5 0 yes (received (write d3.packet) (at 1)) (clock 60)

reach2 : Reach wire conf at s2
unfolding program
reach2 =
    Reach.later (Reach.later Reach.start (Step.round 1 yes hello_tick (clock 10) Arises.hello_time))
      (Step.round 0 yes _ (clock 20) (Arises.arrived 0 d0 refl refl refl))

reach4 : Reach wire conf at s4
unfolding program
reach4 =
    Reach.later
      (Reach.later reach2 (Step.round 1 yes _ (clock 30) (Arises.arrived 1 d1 refl refl refl)))
      (Step.round 0 yes _ (clock 40) (Arises.commanded (discover_and_send 1 (bytes "hi"))))

reach6 : Reach wire conf at s6
unfolding program
reach6 =
    Reach.later
      (Reach.later reach4 (Step.round 1 yes _ (clock 50) (Arises.arrived 2 d2 refl refl refl)))
      (Step.round 0 yes _ (clock 60) (Arises.arrived 3 d3 refl refl refl))

-- The route that node 0 has found.
abbrev route : RouteEntry
route = record {
  dst_node_id = 1;
  dsr_path = 0 ∷ 1 ∷ [];
  dldsr_label_path = 1 ∷ [];
  expires_at_millis = 30060;
}

both_ways : (a b : ℕ) → is_logical_neighbor (conf a) b ≡ is_logical_neighbor (conf b) a
both_ways a b =
    is_logical_neighbor-chain cli 2 7000 a b (at a) (omega arith)
    ∙ next_to_comm 2 a b
    ∙ sym (is_logical_neighbor-chain cli 2 7000 b a (at b) (omega arith))

located :
    (a b : ℕ) → is_logical_neighbor (conf b) a ≡ true → node_id_by_endpoint (conf b) (at a) ≡ some a
located a b near =
    let chained = is_logical_neighbor-chain cli 2 7000 b a (at b) (omega arith) in
    let low : a < 2 = ground arith in
    node_id_by_endpoint-chain cli 2 7000 a b (at b) low (omega arith)

shortest_is_true_example : IsTrueRoute (Means s6) 0 1 (0 ∷ 1 ∷ []) (1 ∷ [])
unfolding program
shortest_is_true_example = shortest_is_true wire conf at fleet {s = s6} 0 1 70 route reach6 refl

-- Node 1 has sent another hello since.
abbrev s7 : System
s7 = act wire conf at s6 1 yes hello_tick (clock 75)

abbrev then : ℕ → System
then zero = s6
then (suc n) = s7

after : (n : ℕ) → Later wire conf at s6 (then n)
after zero = Later.now
after (suc n) = Later.then Later.now (Step.round 1 yes hello_tick (clock 75) Arises.hello_time)

served_route_delivers_example :
    (b : ℕ) × let p = at_cursor (lookup_packet (s6.node 0) 1 (bytes "hi") route 71) 1 in
      ((discover_and_send_data (s6.node 0) 1 (bytes "hi") (clock 70)).1 ≡ only_send p (at b))
      × (p.payload ≡ bytes "hi")
      × Delivers (λ m. (then m).node m) at (λ n. clock 80) b (at 0) p 1
unfolding program
served_route_delivers_example =
    served_route_delivers wire conf at fleet both_ways located {s = s6} 0 1 (bytes "hi") route
      (clock 70) (λ n. clock 80) then reach6 after refl refl (omega arith)

-- The payload that waited for the route.
abbrev flushed : DataPacket
flushed = record {
  src_node_id = 0;
  dst_node_id = 1;
  sequence = 1;
  protocol_mode = dl_dsr;
  route_cursor = 1;
  dsr_path = 0 ∷ 1 ∷ [];
  dldsr_label_path = 1 ∷ [];
  payload = bytes "hi";
  created_at_millis = 61;
}

sent_was_asked_example : Asked wire conf at (λ n. refl) reach6 0 1 (bytes "hi")
unfolding program
sent_was_asked_example =
    sent_was_asked wire conf at (λ n. refl) reach6 4
      (record { src = at 0; dst = at 1; packet = data_packet flushed }) flushed refl refl

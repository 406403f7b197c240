-- ===== src/Tests/Discovery.antt =====
-- The theorems on a discovery, on a chain of three nodes in the label mode.
use dl_dsr_rs.HashMap.{get}
use dl_dsr_rs.Node.GiveUp.{handle_tick_gives_up}
use dl_dsr_rs.Node.Pending.{waits_for}
use dl_dsr_rs.Base.{
  Bool, true, none, filter, ℕ, zero, suc, ◌+◌, ◌≡◌, refl, [], ◌∷◌, some, get_elem?, nat_eq, arith,
}
use dl_dsr_rs.Core.Socket.{SocketAddr}
use dl_dsr_rs.Core.Packet.{dl_dsr, Rreq, rreq}
use dl_dsr_rs.Core.Tables.{LabelTable, empty_labels, update_from_hello_reply}
use dl_dsr_rs.Node.State.{Clock, ProtocolState, new, discover_and_send}
use dl_dsr_rs.Node.Daemon.{daemon_step, protocol_tick, command}
use dl_dsr_rs.Node.Reach.{start, round}
use dl_dsr_rs.Tests.Codecs.{acks}
use dl_dsr_rs.Node.Discovery.{first_rreq, start_discovery, handle_tick}
use dl_dsr_rs.Network.ReplyRoute.{Hears, Returns}
use dl_dsr_rs.Network.RequestRoute.{Hop, Arrives, answer_to, request-Arrives}
use dl_dsr_rs.Network.RoundTrip.{discovery-Returns}
use dl_dsr_rs.Tests.Inputs.{addr, chain_config}
use dl_dsr_rs.Tests.Program.{program}

abbrev at : ℕ → SocketAddr
at n = addr (7000 + n)

abbrev clock : ℕ → Clock
clock n i = 1000 + i

-- Node 1 has the label 11 from node 0, and node 2 the label 12 from node 1.
abbrev labels_of : ℕ → LabelTable
labels_of zero = empty_labels
labels_of (suc zero) = update_from_hello_reply empty_labels 0 11 5
labels_of (suc (suc n)) = update_from_hello_reply empty_labels 1 12 5

abbrev nodes : ℕ → ProtocolState
nodes n = record (new (chain_config n dl_dsr)) { labels = labels_of n }

first_hop : Hop nodes at clock 0 1 4 0 1 (11 ∷ [])
unfolding program
first_hop = record {
  node = refl;
  logical = refl;
  is_new = refl;
  label = (11, refl, refl);
  within = omega arith;
  small = omega arith;
  back = refl;
  sent = refl;
  reaches = refl;
}

second_hop : Hop nodes at clock 0 1 4 1 2 (12 ∷ [])
unfolding program
second_hop = record {
  node = refl;
  logical = refl;
  is_new = refl;
  label = (12, refl, refl);
  within = omega arith;
  small = omega arith;
  back = refl;
  sent = refl;
  reaches = refl;
}

first-Hears : Hears nodes at clock 0 1
unfolding program
first-Hears = record { id = refl; known = refl; logical = refl; back = refl; reaches = refl }

second-Hears : Hears nodes at clock 1 2
unfolding program
second-Hears = record { id = refl; known = refl; logical = refl; back = refl; reaches = refl }

-- The first request of node 0.
abbrev request : Rreq
request = record {
  src_node_id = 0;
  dst_node_id = 2;
  request_id = 1;
  previous_hop = 0;
  hop_count = 0;
  dsr_path = 0 ∷ [];
  dldsr_label_path = [];
  trace_path = 0 ∷ [];
  created_at_millis = 1000;
}

request-Arrives_example :
    Arrives nodes at clock (answer_to request (1 ∷ 2 ∷ []) (11 ∷ 12 ∷ [])) (addr 7001) 1 request
unfolding program
request-Arrives_example =
    request-Arrives nodes at clock (2 ∷ []) 0 1 4 (11 ∷ 12 ∷ []) [] request refl refl refl
      (refl, (refl, (refl, tt)))
      (11 ∷ [], 12 ∷ [], refl, first_hop, (12 ∷ [], [], refl, second_hop, refl)) refl (omega arith)

discovery-Returns_example :
    let q = first_rreq (nodes 0) 2 1 1000 in
    let r = answer_to q (1 ∷ 2 ∷ []) (11 ∷ 12 ∷ []) in
    ((i : ℕ) × (get_elem? (start_discovery (nodes 0) 2 0 (clock 0)).1.outbound i
        ≡ some (record { packet = rreq q; dst = addr 7001 })))
    × Arrives nodes at clock r (addr 7001) 1 q
    × Returns nodes at clock r 1 (addr 7002)
unfolding program
discovery-Returns_example =
    discovery-Returns nodes nodes at clock clock 0 1 2 4 0 (2 ∷ []) (11 ∷ 12 ∷ []) refl
      (refl, (refl, (refl, tt)))
      (11 ∷ [], 12 ∷ [], refl, first_hop, (12 ∷ [], [], refl, second_hop, refl))
      (first-Hears, (second-Hears, tt)) refl (omega arith)

-- Node 0 was told to send to node 3, and sought it twice.
abbrev accepted : ℕ → Bool
accepted i = true

abbrev told : ProtocolState
told =
    (daemon_step acks accepted (new (chain_config 0 dl_dsr))
      (command (discover_and_send 3 (7 ∷ []))) (clock 0)).0

abbrev seeking : ProtocolState
seeking = (daemon_step acks accepted told (protocol_tick 1100) (λ i. 1100 + i)).0

handle_tick_gives_up_example :
    (get 3 (handle_tick seeking 1200 (clock 0)).0.discoveries ≡ none)
    × (filter (waits_for 3) (handle_tick seeking 1200 (clock 0)).0.pending_data ≡ [])
unfolding program
handle_tick_gives_up_example =
    handle_tick_gives_up acks (chain_config 0 dl_dsr) seeking 3 1200
      (record { request_id = 2; last_sent_millis = 1100; retries_done = 1 }) (clock 0)
      (round accepted (protocol_tick 1100) (λ i. 1100 + i)
        (round accepted (command (discover_and_send 3 (7 ∷ []))) (clock 0) start))
      refl (omega arith) (omega arith)

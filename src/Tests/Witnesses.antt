-- ===== src/Tests/Witnesses.antt =====
-- The theorems on the node and on routes, at concrete inputs.
use dl_dsr_rs.Base.{ℕ, zero, suc, ◌+◌, ◌≡◌, refl, Bool, true, [], ◌∷◌, some, arith}
use dl_dsr_rs.Core.Socket.{SocketAddr}
use dl_dsr_rs.Core.Packet.{dsr, dl_dsr, Hello, HelloReply, hello_reply}
use dl_dsr_rs.Core.Tables.{
  NeighborEntry, NeighborTable, empty_neighbors, assign_or_reuse_label, neighbor_by_label,
  label_assigned_by_neighbor,
}
use dl_dsr_rs.Core.Routes.{RouteEntry}
use dl_dsr_rs.Node.State.{Clock, ProtocolState, new, discover_and_send}
use dl_dsr_rs.Node.Hello.{handle_hello, handle_hello_reply}
use dl_dsr_rs.Node.Lookup.{is_logical_neighbor, endpoint, node_id_by_endpoint}
use dl_dsr_rs.Node.Origin.{lookup_packet, origin_data}
use dl_dsr_rs.Node.Stable.{neighbor_by_label-daemon_step}
use dl_dsr_rs.Network.Journey.{at_cursor, only_send, Delivers}
use dl_dsr_rs.Node.Daemon.{daemon_step, protocol_tick, command}
use dl_dsr_rs.Node.Reach.{IsValid, start, round, Reach-IsValid}
use dl_dsr_rs.Node.Agreement.{hello_agreement}
use dl_dsr_rs.Network.SourceRoute.{Links, source_route_delivers}
use dl_dsr_rs.Network.LabelRoute.{label_route_delivers}
use dl_dsr_rs.Tests.Codecs.{acks}
use dl_dsr_rs.Tests.Inputs.{addr, chain_config}
use dl_dsr_rs.Tests.Program.{program}

abbrev clock : Clock
clock i = 1000 + i

abbrev at : ℕ → SocketAddr
at n = addr (7000 + n)

abbrev accepted : ℕ → Bool
accepted i = true

-- A node that was told to send, and then waited.
abbrev told : ProtocolState
told =
    (daemon_step acks accepted (new (chain_config 0 dl_dsr))
      (command (discover_and_send 3 (7 ∷ []))) clock).0

abbrev waited : ProtocolState
waited = (daemon_step acks accepted told (protocol_tick 5000) clock).0

Reach-IsValid_example : IsValid waited
Reach-IsValid_example = Reach-IsValid acks (chain_config 0 dl_dsr) (
    round accepted (protocol_tick 5000) clock
      (round accepted (command (discover_and_send 3 (7 ∷ []))) clock start))

abbrev dsr_nodes : ℕ → ProtocolState
dsr_nodes n = new (chain_config n dsr)

abbrev route : RouteEntry
route = record {
  dst_node_id = 2;
  dsr_path = 0 ∷ 1 ∷ 2 ∷ [];
  dldsr_label_path = 1 ∷ 2 ∷ [];
  expires_at_millis = 9000;
}

linked :
    (a b : ℕ)
    → is_logical_neighbor (dsr_nodes a).config b ≡ true
    → endpoint (dsr_nodes a).config b ≡ some (at b)
    → node_id_by_endpoint (dsr_nodes b).config (at a) ≡ some a
    → is_logical_neighbor (dsr_nodes b).config a ≡ true
    → Links dsr_nodes at (λ n. clock) a b
unfolding new
linked a b logical reaches known back = record {
  logical = logical;
  reaches = reaches;
  accepts = record { id = refl; mode = refl; sender_known = known; sender_logical = back };
}

source_route_delivers_example :
    let p = at_cursor (lookup_packet (dsr_nodes 0) 2 (7 ∷ []) route 1000) 1 in
    ((origin_data (dsr_nodes 0) 2 (7 ∷ []) route clock).1 ≡ only_send p (at 1))
    × (p.payload ≡ 7 ∷ [])
    × Delivers dsr_nodes at (λ n. clock) 1 (at 0) p 2
unfolding program
source_route_delivers_example =
    source_route_delivers dsr_nodes at (λ n. clock) 0 1 2 (2 ∷ []) (7 ∷ []) route clock refl refl
      refl (refl, (refl, (refl, tt)))
      (linked 0 1 refl refl refl refl, (linked 1 2 refl refl refl refl, tt)) refl (omega arith)

-- The labels that each node of the chain gave its neighbours.
abbrev table : ℕ → NeighborTable
table zero = (assign_or_reuse_label empty_neighbors 1 (at 1) 1000).0
table (suc zero) =
    (assign_or_reuse_label (assign_or_reuse_label empty_neighbors 0 (at 0) 1000).0 2 (at 2) 1000).0
table _ = empty_neighbors

abbrev dldsr_nodes : ℕ → ProtocolState
dldsr_nodes n = record (new (chain_config n dl_dsr)) { neighbors = table n }

-- The entry of the neighbour `n` with the label `l`.
abbrev entry_of : ℕ → ℕ → NeighborEntry
entry_of n l = record {
  node_id = n;
  label_assigned_by_me_to_neighbor = l;
  last_seen_millis = 1000;
  endpoint = at n;
  alive = true;
}

abbrev labelled : ProtocolState
labelled = record (new (chain_config 0 dl_dsr)) {
  neighbors = record { entries = (1, entry_of 1 1) ∷ [] };
}

label_route_delivers_example :
    let p = at_cursor (lookup_packet (dldsr_nodes 0) 2 (7 ∷ []) route 1000) 1 in
    ((origin_data (dldsr_nodes 0) 2 (7 ∷ []) route clock).1 ≡ only_send p (at 1))
    × (p.payload ≡ 7 ∷ [])
    × Delivers dldsr_nodes at (λ n. clock) 1 (at 0) p 2
unfolding program
label_route_delivers_example =
    label_route_delivers dldsr_nodes at (λ n. clock) 0 1 2 1 (2 ∷ []) (2 ∷ []) (7 ∷ []) route clock
      refl refl refl (refl, tt)
      (
        record {
          entry = entry_of 1 1;
          found = refl;
          is_next = refl;
          reaches = refl;
          logical = refl;
          accepts = record { id = refl; mode = refl; sender_known = refl; sender_logical = refl };
        },
        (
          record {
            entry = entry_of 2 2;
            found = refl;
            is_next = refl;
            reaches = refl;
            logical = refl;
            accepts = record { id = refl; mode = refl; sender_known = refl; sender_logical = refl };
          },
          tt,
        ),
      )
      refl (omega arith)

abbrev greeting : Hello
greeting = record { src_node_id = 0; timestamp_millis = 5 }

abbrev HasReply : Type 0
HasReply =
    (r : HelloReply) × (e : NeighborEntry) × ((handle_hello (new (chain_config 1 dl_dsr)) greeting
        (at 0) clock).1.outbound
      ≡ record { packet = hello_reply r; dst = at 0 } ∷ [])
    × (label_assigned_by_neighbor (handle_hello_reply (dldsr_nodes 0) r).0.labels 1 ≡ some 1)
    × (neighbor_by_label
          (handle_hello (new (chain_config 1 dl_dsr)) greeting (at 0) clock).0.neighbors 1
        ≡ some e)
    × (e.node_id ≡ 0)
    × (e.endpoint ≡ at 0)

hello_agreement_example : HasReply
unfolding program
hello_agreement_example =
    hello_agreement (new (chain_config 1 dl_dsr)) (dldsr_nodes 0) greeting (at 0) clock 1
      (record { own = tt; logical = tt }) refl refl refl refl

neighbor_by_label-daemon_step_example :
    (f : NeighborEntry) × (neighbor_by_label
        (daemon_step acks accepted labelled (protocol_tick 5000) clock).0.neighbors
        1
      ≡ some f)
    × (f.node_id ≡ 1)
unfolding program
neighbor_by_label-daemon_step_example =
    neighbor_by_label-daemon_step acks accepted labelled (protocol_tick 5000) clock 1 (entry_of 1 1)
      (record {
        own = (refl, refl, omega arith, omega arith, refl, refl, tt);
        logical = (refl, tt);
      })
      refl

-- ===== src/Node/Lookup.antt =====
-- What a node reads of its topology and its tables (crates/dldsr-node/src/protocol.rs). Those
-- that read `self.config` alone take the configuration.
use dl_dsr_rs.Base.{
  ℕ, ◌+◌, Bool, false, List, [], Option, none, some, find?, contains, get_elem?, position, ◌==◌,
}
use mathlib.Core.Option
use dl_dsr_rs.Core.Socket.{SocketAddr, addr_eq}
use dl_dsr_rs.Core.Packet.{dsr, dl_dsr, DataPacket}
use dl_dsr_rs.Core.Topology.{NodeConfig, node}
use dl_dsr_rs.Core.Tables.{neighbor_by_label}
use dl_dsr_rs.Node.State.{ProtocolState}

-- `logical_neighbors`
unfoldable pub logical_neighbors : NodeConfig → List ℕ
logical_neighbors c = elim (node c.topology c.node_id) [ none ↦ [] | some n ↦ n.neighbors ]

-- `is_logical_neighbor`
unfoldable pub is_logical_neighbor : NodeConfig → ℕ → Bool
is_logical_neighbor c node_id = contains (logical_neighbors c) node_id

-- `endpoint`
unfoldable pub endpoint : NodeConfig → ℕ → Option SocketAddr
endpoint c node_id = Option.map (λ n. n.endpoint) (node c.topology node_id)

-- `node_id_by_endpoint`
unfoldable pub node_id_by_endpoint : NodeConfig → SocketAddr → Option ℕ
node_id_by_endpoint c addr =
    Option.map (λ n. n.node_id) (find? (λ n. n.endpoint == addr) c.topology.nodes)

-- `are_adjacent`
unfoldable pub are_adjacent : NodeConfig → ℕ → ℕ → Bool
are_adjacent c left right = elim (node c.topology left) [
  | none ↦ false
  | some n ↦ contains n.neighbors right
]

-- `position.checked_sub(1).and_then(|idx| path.get(idx).copied())`
unfoldable pub before : ℕ → List ℕ → Option ℕ
before position path = elim position [ ℕ.zero ↦ none | ℕ.suc i ↦ get_elem? path i ]

-- `previous_in_trace`
unfoldable pub previous_in_trace : List ℕ → ℕ → Option ℕ
previous_in_trace trace_path current = elim (position current trace_path) [
  | none ↦ none
  | some p ↦ before p trace_path
]

-- `next_data_endpoint`, of a `Data` packet; it is called on no other. An index into a `Vec` plus
-- one cannot overflow: the caller's cursor is 0.
unfoldable pub next_data_endpoint : ProtocolState → DataPacket → Option SocketAddr
next_data_endpoint s p = elim p.protocol_mode [
  | dsr ↦ elim (get_elem? p.dsr_path (p.route_cursor + 1)) [
    | none ↦ none
    | some next ↦ endpoint s.config next
  ]
  | dl_dsr ↦ elim (get_elem? p.dldsr_label_path p.route_cursor) [
    | none ↦ none
    | some label ↦ Option.map (λ entry. entry.endpoint) (neighbor_by_label s.neighbors label)
  ]
]

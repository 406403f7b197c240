-- ===== src/Network/Journey.antt =====
-- A payload from hop to hop: each node handles what the one before it sent.
use dl_dsr_rs.Base.{
  ℕ, ◌+◌, ◌<◌, ◌^◌, ◌≡◌, refl, true, false, [], ◌∷◌, some, nat_beq, get_elem?, last?, position,
  length, add_u64_lt, arith,
}
use dl_dsr_rs.Core.Socket.{SocketAddr}
use dl_dsr_rs.Core.Packet.{ProtocolMode, dsr, dl_dsr, mode_beq, DataPacket, data_packet}
use dl_dsr_rs.Core.Tables.{NeighborEntry, neighbor_by_label}
use dl_dsr_rs.Node.State.{Clock, data_delivered, ProtocolActions, ProtocolState}
use dl_dsr_rs.Node.Lookup.{is_logical_neighbor, node_id_by_endpoint, before, endpoint}
use dl_dsr_rs.Node.Data.{
  validate_data_delivery, deliver_data, pass_on, forward_dsr, forward_dldsr, forward_data,
  handle_data,
}

-- The same packet, at another place of its route.
abbrev pub at_cursor : DataPacket → ℕ → DataPacket
at_cursor p cursor = record p { route_cursor = cursor }

-- The packet goes out once, and nothing else happens.
abbrev pub only_send : DataPacket → SocketAddr → ProtocolActions
only_send p addr = record {
  outbound = record { packet = data_packet p; dst = addr } ∷ [];
  events = [];
}

-- The payload is handed over once, and nothing goes out.
abbrev pub only_deliver : ℕ → DataPacket → ProtocolActions
only_deliver n p = record {
  outbound = [];
  events = data_delivered n p.src_node_id p.dst_node_id p.sequence p.payload ∷ [];
}

-- What the node `n` must know of its neighbour `sender` at the address `a`, and of the packet's
-- mode, to take the packet.
pub record Accepts (s : ProtocolState) (n sender : ℕ) (a : SocketAddr) (m : ProtocolMode)
    : Type 0 where
  pub id : s.config.node_id ≡ n
  pub mode : s.config.protocol_mode ≡ m
  pub sender_known : node_id_by_endpoint s.config a ≡ some sender
  pub sender_logical : is_logical_neighbor s.config sender ≡ true

mode_beq_refl : (m : ProtocolMode) → mode_beq m m ≡ true
mode_beq_refl dsr = refl
mode_beq_refl dl_dsr = refl

module _ (s : ProtocolState) (n sender : ℕ) (a : SocketAddr) (p : DataPacket) (clock : Clock) where
  -- A relay in the mode of node ids.
  pub relay_dsr :
      (next : ℕ) (addr : SocketAddr)
      → Accepts s n sender a dsr
      → p.protocol_mode ≡ dsr
      → nat_beq p.dst_node_id n ≡ false
      → p.route_cursor + 1 < 2 ^ 64
      → get_elem? p.dsr_path p.route_cursor ≡ some n
      → get_elem? p.dsr_path (p.route_cursor + 1) ≡ some next
      → is_logical_neighbor s.config next ≡ true
      → endpoint s.config next ≡ some addr
      → (handle_data s a p clock).1 ≡ only_send (at_cursor p (p.route_cursor + 1)) addr
  unfolding handle_data forward_data forward_dsr pass_on
  relay_dsr next addr acc m d lt here there logical known =
      ground (arith, add_u64_lt p.route_cursor 1 lt)

  -- The end of a route of node ids.
  pub arrive_dsr :
      Accepts s n sender a dsr
      → p.protocol_mode ≡ dsr
      → p.dst_node_id ≡ n
      → last? p.dsr_path ≡ some n
      → position n p.dsr_path ≡ some p.route_cursor
      → before p.route_cursor p.dsr_path ≡ some sender
      → (handle_data s a p clock).1 ≡ only_deliver n p
  unfolding handle_data deliver_data validate_data_delivery
  arrive_dsr acc m d end here back = ground arith

  -- A relay in the mode of labels.
  pub relay_dldsr :
      (label : ℕ) (entry : NeighborEntry)
      → Accepts s n sender a dl_dsr
      → p.protocol_mode ≡ dl_dsr
      → nat_beq p.dst_node_id n ≡ false
      → p.route_cursor + 1 < 2 ^ 64
      → get_elem? p.dldsr_label_path p.route_cursor ≡ some label
      → neighbor_by_label s.neighbors label ≡ some entry
      → is_logical_neighbor s.config entry.node_id ≡ true
      → (handle_data s a p clock).1 ≡ only_send (at_cursor p (p.route_cursor + 1)) entry.endpoint
  unfolding handle_data forward_data forward_dldsr pass_on
  relay_dldsr label entry acc m d lt here found logical =
      ground (arith, add_u64_lt p.route_cursor 1 lt)

  -- The end of a route of labels.
  pub arrive_dldsr :
      Accepts s n sender a dl_dsr
      → p.protocol_mode ≡ dl_dsr
      → p.dst_node_id ≡ n
      → p.route_cursor ≡ length p.dldsr_label_path
      → (handle_data s a p clock).1 ≡ only_deliver n p
  unfolding handle_data deliver_data validate_data_delivery
  arrive_dldsr acc m d end = ground arith

-- The packet that `n` receives from the address `a` reaches a node that hands the payload over:
-- each node on the way sends it on to the next, and does nothing else. `nodes` gives the states
-- in which the nodes find the packet, `addr` their addresses and `clock` their clocks.
pub data Delivers (nodes : ℕ → ProtocolState) (addr : ℕ → SocketAddr) (clock : ℕ → Clock)
    : ℕ → SocketAddr → DataPacket → ℕ → Type 0 where
  arrive :
      {n : ℕ} {a : SocketAddr} {p : DataPacket}
      → (handle_data (nodes n) a p (clock n)).1 ≡ only_deliver n p
      → Delivers nodes addr clock n a p n
  relay :
      {n m d : ℕ} {a : SocketAddr} {p : DataPacket} (cursor : ℕ)
      → (handle_data (nodes n) a p (clock n)).1 ≡ only_send (at_cursor p cursor) (addr m)
      → Delivers nodes addr clock m (addr n) (at_cursor p cursor) d
      → Delivers nodes addr clock n a p d

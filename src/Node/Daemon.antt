-- ===== src/Node/Daemon.antt =====
-- The daemon around the protocol (crates/dldsr-node/src/daemon.rs): one round of its loop is one
-- input. The sockets, the channels and the JSON are outside: what they return is in the input.
use dl_dsr_rs.Base.{
  ℕ, suc, Bool, true, false, List, [], ◌∷◌, Option, none, some, add_u64, ok, err, length,
}
use dl_dsr_rs.Core.Socket.{SocketAddr, Text}
use dl_dsr_rs.Core.Packet.{Packet, hello, Codec, encode, decode}
use dl_dsr_rs.Core.Topology.{NodeConfig}
use dl_dsr_rs.Node.State.{
  Clock, later, ProtocolCommand, discover_and_send, OutboundPacket, ProtocolActions, no_actions,
  send, ProtocolState, record_rx_bytes, record_tx_packet,
}
use dl_dsr_rs.Node.Lookup.{logical_neighbors, endpoint}
use dl_dsr_rs.Node.Discovery.{handle_tick}
use dl_dsr_rs.Node.Handle.{handle_command, handle_packet}

-- The loop of `send_hellos`: each hello reads the clock.
unfoldable pub hello_loop : NodeConfig → List ℕ → Clock → ProtocolActions → ProtocolActions
hello_loop c [] clock actions = actions
hello_loop c (n ∷ ns) clock actions = elim (endpoint c n) [
  | none ↦ hello_loop c ns clock actions
  | some addr ↦
      hello_loop c ns (later clock)
        (send actions (hello (record { src_node_id = c.node_id; timestamp_millis = clock 0 })) addr)
]

-- `Daemon::send_hellos`
unfoldable pub send_hellos : NodeConfig → Clock → ProtocolActions
send_hellos c clock = hello_loop c (logical_neighbors c) clock no_actions

-- `ControlSendRequest`
pub record ControlSendRequest : Type 0 where
  pub dst : ℕ
  pub payload : Text

-- What ends a wait of the loop. A control message comes with what `serde_json` made of it, a
-- datagram as its bytes; the ticks come with the reading of the clock.
pub data Input : Type 0 where
  hello_tick : Input
  protocol_tick : (now : ℕ) → Input
  metrics_tick : Input
  control : Option ControlSendRequest → Input
  received : (bytes : List ℕ) (sender : SocketAddr) → Input
  receive_failed : Input
  command : ProtocolCommand → Input

-- The part of `Daemon::handle_control_message` on the state; Control has the rest.
unfoldable pub handle_control_request :
    ProtocolState → Option ControlSendRequest → Clock → ProtocolState × ProtocolActions
handle_control_request s none clock = (s, no_actions)
handle_control_request s (some request) clock =
    handle_command s (discover_and_send request.dst request.payload) clock

module _ (c : Codec) where
  -- `UdpTransport::recv` and the branch of `select!` for it: a datagram that does not decode is
  -- not counted.
  unfoldable pub receive :
      ProtocolState → List ℕ → SocketAddr → Clock → ProtocolState × ProtocolActions
  receive s bytes sender clock = elim (decode c bytes) [
    | err _ ↦ (s, no_actions)
    | ok packet ↦ handle_packet (record_rx_bytes s (length bytes)) packet sender clock
  ]

  -- The state and the actions of one branch of `select!`.
  unfoldable pub handle_input : ProtocolState → Input → Clock → ProtocolState × ProtocolActions
  handle_input s hello_tick clock = (s, send_hellos s.config clock)
  handle_input s (protocol_tick now) clock = handle_tick s now clock
  handle_input s metrics_tick clock = (s, no_actions)
  handle_input s (control request) clock = handle_control_request s request clock
  handle_input s (received bytes sender) clock = receive s bytes sender clock
  handle_input s receive_failed clock = (s, no_actions)
  handle_input s (command request) clock = handle_command s request clock

  -- `UdpTransport::send`: whether the packet is encoded and the socket takes it.
  unfoldable pub transmit : Bool → Packet → Bool
  transmit accepted packet = elim (encode c packet) [ err _ ↦ false | ok _ ↦ accepted ]

  -- The packets that leave, in `apply_actions`. `accepted i` says whether the socket takes the
  -- i-th packet.
  unfoldable pub apply_outbound : (ℕ → Bool) → List OutboundPacket → ProtocolState → ProtocolState
  apply_outbound accepted [] s = s
  apply_outbound accepted (o ∷ os) s =
      apply_outbound (λ i. accepted (suc i)) os
        (elim (transmit (accepted 0) o.packet) [
          | true ↦ record_tx_packet c s o.packet
          | false ↦ record s {
            metrics = record (s.metrics) { dropped_packets = add_u64 s.metrics.dropped_packets 1 };
          }
        ])

  -- One round of the loop of `run_with_channels`: the state after `apply_actions`, and the actions.
  unfoldable pub daemon_step :
      (ℕ → Bool) → ProtocolState → Input → Clock → ProtocolState × ProtocolActions
  daemon_step accepted s input clock =
      let (t, actions) = handle_input s input clock in
      (apply_outbound accepted actions.outbound t, actions)

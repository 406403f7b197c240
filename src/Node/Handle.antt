-- ===== src/Node/Handle.antt =====
-- The dispatch of packets and commands: `handle_packet`, `handle_command`
-- (crates/dldsr-node/src/protocol.rs).
use dl_dsr_rs.Core.Socket.{SocketAddr}
use dl_dsr_rs.Core.Packet.{Packet, hello, hello_reply, rreq, rrep, data_packet, ack, error_packet}
use dl_dsr_rs.Node.State.{
  Clock, ProtocolCommand, discover_and_send, ProtocolActions, no_actions, ProtocolState,
}
use dl_dsr_rs.Node.Discovery.{discover_and_send_data}
use dl_dsr_rs.Node.Hello.{handle_hello, handle_hello_reply}
use dl_dsr_rs.Node.Rreq.{handle_rreq}
use dl_dsr_rs.Node.Rrep.{handle_rrep}
use dl_dsr_rs.Node.Data.{handle_data}

-- `handle_command`
unfoldable pub handle_command :
    ProtocolState → ProtocolCommand → Clock → ProtocolState × ProtocolActions
handle_command s (discover_and_send dst_node_id payload) clock =
    discover_and_send_data s dst_node_id payload clock

-- `handle_packet`
unfoldable pub handle_packet :
    ProtocolState → Packet → SocketAddr → Clock → ProtocolState × ProtocolActions
handle_packet s (hello h) sender clock = handle_hello s h sender clock
handle_packet s (hello_reply r) sender clock = handle_hello_reply s r
handle_packet s (rreq r) sender clock = handle_rreq s r clock
handle_packet s (rrep r) sender clock = handle_rrep s sender r clock
handle_packet s (data_packet p) sender clock = handle_data s sender p clock
handle_packet s (ack _) sender clock = (s, no_actions)
handle_packet s (error_packet _) sender clock = (s, no_actions)

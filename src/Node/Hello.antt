-- ===== src/Node/Hello.antt =====
-- The exchange of labels: `handle_hello` and `handle_hello_reply`
-- (crates/dldsr-node/src/protocol.rs).
use dl_dsr_rs.Base.{true, ◌&&◌, nat_eq, nat_beq, not, ok, err, if◌then◌else◌}
use dl_dsr_rs.Core.Socket.{SocketAddr}
use dl_dsr_rs.Core.Packet.{Hello, HelloReply, hello_reply}
use dl_dsr_rs.Core.Tables.{assign_or_reuse_label, update_from_hello_reply}
use dl_dsr_rs.Node.State.{Clock, ProtocolActions, no_actions, send, ProtocolState}
use dl_dsr_rs.Node.Lookup.{is_logical_neighbor}

-- `handle_hello`: the clock is read for the table and again for the reply.
unfoldable pub handle_hello :
    ProtocolState → Hello → SocketAddr → Clock → ProtocolState × ProtocolActions
handle_hello s h sender clock =
    if not (is_logical_neighbor s.config h.src_node_id)
    then (s, no_actions)
    else let (neighbors, label) =
        assign_or_reuse_label s.neighbors h.src_node_id sender (clock 0) in
      elim label [
        | err _ ↦ (s, no_actions)
        | ok l ↦ (
          record s { neighbors = neighbors },
          send no_actions
              (hello_reply (record {
                src_node_id = s.config.node_id;
                dst_node_id = h.src_node_id;
                assigned_label = l;
                update_flag = true;
                timestamp_millis = clock 1;
              }))
              sender,
        )
      ]

-- `handle_hello_reply`
unfoldable pub handle_hello_reply : ProtocolState → HelloReply → ProtocolState × ProtocolActions
handle_hello_reply s r =
    if nat_beq r.dst_node_id s.config.node_id && is_logical_neighbor s.config r.src_node_id
    then (
      record s {
        labels = update_from_hello_reply s.labels r.src_node_id r.assigned_label r.timestamp_millis;
      },
      no_actions,
    )
    else (s, no_actions)

-- ===== src/Tests/Program.antt =====
-- The definitions that the tests run.
use dl_dsr_rs.Base.{add_u8, add_u16, add_u32, add_u64}
use dl_dsr_rs.HashMap.{get, insert, remove}
use dl_dsr_rs.Core.Topology.{node, chain, chain_node}
use dl_dsr_rs.Core.Packet.{encode, decode, encoded_len}
use dl_dsr_rs.Core.Tables.{
  neighbor_by_label, label_assigned_by_neighbor, assign_or_reuse_label, free_label, find_in_range,
  update_from_hello_reply,
}
use dl_dsr_rs.Core.Routes.{shortest, insert_route, hop_count, new_dsr, new_dldsr}
use dl_dsr_rs.Core.Seen.{
  prune, mark_if_new, enforce_max_entries, sort_entries, insert_sorted, remove_entries,
}
use dl_dsr_rs.Node.State.{new, record_rx_bytes, record_tx_packet}
use dl_dsr_rs.Node.Hello.{handle_hello, handle_hello_reply}
use dl_dsr_rs.Node.Lookup.{
  logical_neighbors, is_logical_neighbor, endpoint, node_id_by_endpoint, are_adjacent, before,
  previous_in_trace, next_data_endpoint,
}
use dl_dsr_rs.Node.Origin.{
  drop_data, lookup_packet, origin_data, flush_loop, flush_pending, drop_loop, drop_pending_for_dst,
}
use dl_dsr_rs.Node.Discovery.{
  first_rreq, send_to_neighbor, start_discovery, discover_and_send_data, is_expired, fail_discovery,
  retry_discovery, retry_loop, retry_expired_discoveries, handle_tick,
}
use dl_dsr_rs.Node.Rreq.{push_hop, answer_rreq, forward_rreq, route_rreq, label_rreq, handle_rreq}
use dl_dsr_rs.Node.Rrep.{
  check_reverse, validate_rrep, route_of, accept_rrep, forward_rrep, handle_rrep,
}
use dl_dsr_rs.Node.Data.{
  validate_data_delivery, deliver_data, pass_on, forward_dsr, forward_dldsr, forward_data,
  handle_data,
}
use dl_dsr_rs.Node.Handle.{handle_packet, handle_command}
use dl_dsr_rs.Node.Config.{load_file, load_topology, load}
use dl_dsr_rs.Node.Daemon.{
  hello_loop, send_hellos, handle_control_request, receive, handle_input, transmit, apply_outbound,
  daemon_step,
}
use dl_dsr_rs.Node.Snapshot.{metrics_snapshot}

unfoldable pub program : Unit {0}
unfolding encode decode encoded_len assign_or_reuse_label free_label find_in_range
    update_from_hello_reply new_dldsr handle_hello handle_hello_reply get insert remove node
    neighbor_by_label label_assigned_by_neighbor shortest insert_route hop_count new_dsr prune
    mark_if_new enforce_max_entries sort_entries insert_sorted remove_entries new logical_neighbors
    is_logical_neighbor endpoint node_id_by_endpoint are_adjacent before previous_in_trace
    next_data_endpoint drop_data lookup_packet origin_data flush_loop flush_pending drop_loop
    drop_pending_for_dst first_rreq send_to_neighbor start_discovery discover_and_send_data
    is_expired fail_discovery retry_discovery retry_loop retry_expired_discoveries handle_tick
    push_hop answer_rreq forward_rreq route_rreq label_rreq handle_rreq check_reverse validate_rrep
    route_of accept_rrep forward_rrep handle_rrep validate_data_delivery deliver_data pass_on
    forward_dsr forward_dldsr forward_data handle_data handle_packet handle_command add_u8 add_u32
    add_u64 add_u16 chain chain_node record_rx_bytes record_tx_packet load_file load_topology load
    hello_loop send_hellos handle_control_request receive handle_input transmit apply_outbound
    daemon_step metrics_snapshot
program = tt

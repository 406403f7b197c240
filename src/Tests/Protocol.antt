-- ===== src/Tests/Protocol.antt =====
-- The unit tests of the node.
use dl_dsr_rs.Base.{◌≡◌, refl, [], ◌∷◌, length}
use dl_dsr_rs.Core.Packet.{dsr, dl_dsr, rreq, rrep, data_packet}
use dl_dsr_rs.Node.State.{ProtocolState, ProtocolActions, new, discover_and_send, Clock}
use dl_dsr_rs.Node.Discovery.{handle_tick}
use dl_dsr_rs.Node.Handle.{handle_packet, handle_command}
use dl_dsr_rs.Tests.Program.{program}
use dl_dsr_rs.Tests.Inputs.{addr, chain_config, rreq_at}

abbrev clock : Clock
clock i = 1000

abbrev relay : ProtocolState × ProtocolActions
relay = handle_packet (new (chain_config 1 dsr)) (rreq (rreq_at 0)) (addr 7000) clock

duplicate_rreq_is_dropped_and_counted :
    let (s, second) = handle_packet relay.0 (rreq (rreq_at 0)) (addr 7000) clock in
    (length relay.1.outbound ≡ 1)
    × (length second.outbound ≡ 0)
    × (s.metrics.rreq_dropped_duplicate ≡ 1)
unfolding program
duplicate_rreq_is_dropped_and_counted = (refl, refl, refl)

rreq_ttl_drop_is_counted :
    let (s, actions) =
      handle_packet (new (chain_config 1 dsr)) (rreq (rreq_at 4)) (addr 7000) clock in
    (length actions.outbound ≡ 0) × (s.metrics.rreq_dropped_ttl ≡ 1)
unfolding program
rreq_ttl_drop_is_counted = (refl, refl)

missing_dldsr_label_drops_data :
    let (s, actions) =
      handle_packet
        (new (chain_config 1 dl_dsr))
        (data_packet (record {
          src_node_id = 0;
          dst_node_id = 3;
          sequence = 1;
          protocol_mode = dl_dsr;
          route_cursor = 0;
          dsr_path = 0 ∷ 1 ∷ 2 ∷ 3 ∷ [];
          dldsr_label_path = 99 ∷ [];
          payload = [];
          created_at_millis = 5;
        }))
        (addr 7000)
        clock in
    (length actions.outbound ≡ 0) × (length actions.events ≡ 2) × (s.metrics.data_dropped ≡ 1)
unfolding program
missing_dldsr_label_drops_data = (refl, refl, refl)

invalid_rrep_trace_is_dropped :
    let (s, actions) =
      handle_packet
        (new (chain_config 1 dsr))
        (rrep (record {
          src_node_id = 0;
          dst_node_id = 3;
          request_id = 7;
          dsr_path = 0 ∷ 1 ∷ 2 ∷ 3 ∷ [];
          dldsr_label_path = [];
          trace_path = 0 ∷ 3 ∷ [];
          created_at_millis = 5;
        }))
        (addr 7002)
        clock in
    (length actions.outbound ≡ 0) × (s.metrics.rrep_dropped_invalid ≡ 1)
unfolding program
invalid_rrep_trace_is_dropped = (refl, refl)

abbrev start : ProtocolState × ProtocolActions
start = handle_command (new (chain_config 0 dsr)) (discover_and_send 99 (1 ∷ [])) clock

abbrev retry : ProtocolState × ProtocolActions
retry = handle_tick start.0 1020 clock

abbrev failed : ProtocolState × ProtocolActions
failed = handle_tick retry.0 1040 clock

route_discovery_failure_drops_pending_payload :
    (length start.1.outbound ≡ 1)
    × (length retry.1.outbound ≡ 1)
    × (length failed.1.events ≡ 2)
    × (failed.0.metrics.route_discovery_failures ≡ 1)
    × (failed.0.metrics.data_dropped ≡ 1)
unfolding program
route_discovery_failure_drops_pending_payload = (refl, refl, refl, refl, refl)

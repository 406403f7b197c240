-- ===== src/Node/Discovery.antt =====
-- Route discovery at its source: the start, the retries and the end
-- (crates/dldsr-node/src/protocol.rs).
use dl_dsr_rs.Base.{
  ℕ, Bool, true, false, List, [], ◌∷◌, ◌++◌, none, some, nat_eq, ltb, leb, filter, foldl, add_u32,
  add_u64, saturating_sub, if◌then◌else◌,
}
use dl_dsr_rs.HashMap.{insert, remove, contains_key}
use dl_dsr_rs.Core.Packet.{Packet, Rreq, rreq}
use dl_dsr_rs.Core.Routes.{shortest}
use dl_dsr_rs.Core.Seen.{mark_if_new, prune}
use dl_dsr_rs.Node.State.{
  Clock, later, discovery_failed, data_dropped, route_discovery_failed, ProtocolActions, no_actions,
  send, emit, DiscoveryState, ProtocolState,
}
use dl_dsr_rs.Node.Lookup.{logical_neighbors, endpoint}
use dl_dsr_rs.Node.Origin.{origin_data, drop_pending_for_dst}

-- The request that `start_discovery` sends.
unfoldable pub first_rreq : ProtocolState → ℕ → ℕ → ℕ → Rreq
first_rreq s dst_node_id request_id now = record {
  src_node_id = s.config.node_id;
  dst_node_id = dst_node_id;
  request_id = request_id;
  previous_hop = s.config.node_id;
  hop_count = 0;
  dsr_path = s.config.node_id ∷ [];
  dldsr_label_path = [];
  trace_path = s.config.node_id ∷ [];
  created_at_millis = now;
}

-- One round of `for neighbor_id in self.logical_neighbors()`.
unfoldable pub send_to_neighbor : ProtocolState → Packet → ProtocolActions → ℕ → ProtocolActions
send_to_neighbor s packet actions neighbor_id = elim (endpoint s.config neighbor_id) [
  | none ↦ actions
  | some addr ↦ send actions packet addr
]

-- `start_discovery`
unfoldable pub start_discovery : ProtocolState → ℕ → ℕ → Clock → ProtocolState × ProtocolActions
start_discovery s dst_node_id retries_done clock =
    let request_id = s.next_request_id in
    let now = clock 0 in
    let c = s.config in
    let (seen, _) =
      mark_if_new s.seen_requests c.node_id request_id now c.seen_request_ttl_ms
        c.seen_request_max_entries in
    (
      record s {
        next_request_id = add_u64 s.next_request_id 1;
        seen_requests = seen;
        discoveries =
            insert dst_node_id
              (record {
                request_id = request_id;
                last_sent_millis = now;
                retries_done = retries_done;
              })
              s.discoveries;
        metrics = record (s.metrics) {
          route_discovery_attempts = add_u64 s.metrics.route_discovery_attempts 1;
        };
      },
      foldl (send_to_neighbor s (rreq (first_rreq s dst_node_id request_id now))) no_actions
          (logical_neighbors c),
    )

-- `discover_and_send`
unfoldable pub discover_and_send_data :
    ProtocolState → ℕ → List ℕ → Clock → ProtocolState × ProtocolActions
discover_and_send_data s dst_node_id payload clock =
    elim (shortest s.routes dst_node_id (clock 0)) [
      | some route ↦ origin_data s dst_node_id payload route (later clock)
      | none ↦
          let queued : ProtocolState = record s {
            pending_data =
                s.pending_data ++ (record { dst_node_id = dst_node_id; payload = payload } ∷ []);
          } in
          if contains_key dst_node_id s.discoveries
          then (queued, no_actions)
          else start_discovery queued dst_node_id 0 (later clock)
    ]

-- The filter of `retry_expired_discoveries`.
unfoldable pub is_expired : ProtocolState → ℕ → ℕ × DiscoveryState → Bool
is_expired s now (_, d) =
    leb s.config.route_discovery_timeout_ms (saturating_sub now d.last_sent_millis)

-- The branch of the loop that gives up.
unfoldable pub fail_discovery :
    ℕ → DiscoveryState → ProtocolState × ProtocolActions → ProtocolState × ProtocolActions
fail_discovery dst_node_id d (s, actions) =
    let (t, dropped) =
      drop_pending_for_dst (record s { discoveries = remove dst_node_id s.discoveries })
        dst_node_id in
    let attempts = add_u32 d.retries_done 1 in
    let failed = emit actions (route_discovery_failed s.config.node_id dst_node_id attempts) in
    (
      record t {
        metrics = record (t.metrics) {
          route_discovery_failures = add_u64 t.metrics.route_discovery_failures 1;
          dropped_packets = add_u64 t.metrics.dropped_packets dropped;
          data_dropped = add_u64 t.metrics.data_dropped dropped;
        };
      },
      if ltb 0 dropped
          then emit failed (data_dropped s.config.node_id dst_node_id discovery_failed)
          else failed,
    )

-- The branch of the loop that tries again.
unfoldable pub retry_discovery :
    ℕ → DiscoveryState → Clock → ProtocolState × ProtocolActions → ProtocolState × ProtocolActions
retry_discovery dst_node_id d clock (s, actions) =
    let (t, started) = start_discovery s dst_node_id (add_u32 d.retries_done 1) clock in
    (t, record actions { outbound = actions.outbound ++ started.outbound })

-- The loop `for (dst_node_id, state) in expired`; only a retry reads the clock.
unfoldable pub retry_loop :
    List (ℕ × DiscoveryState)
    → Clock
    → ProtocolState × ProtocolActions
    → ProtocolState × ProtocolActions
retry_loop [] clock acc = acc
retry_loop ((dst, d) ∷ expired) clock acc =
    elim (leb (acc.0).config.route_discovery_max_retries d.retries_done) [
      | true ↦ retry_loop expired clock (fail_discovery dst d acc)
      | false ↦ retry_loop expired (later clock) (retry_discovery dst d clock acc)
    ]

-- `retry_expired_discoveries`
unfoldable pub retry_expired_discoveries :
    ProtocolState → ℕ → Clock → ProtocolState × ProtocolActions
retry_expired_discoveries s now clock =
    retry_loop (filter (is_expired s now) s.discoveries) clock (s, no_actions)

-- `handle_tick`
unfoldable pub handle_tick : ProtocolState → ℕ → Clock → ProtocolState × ProtocolActions
handle_tick s now clock =
    let pruned : ProtocolState = record s {
      seen_requests = prune s.seen_requests now s.config.seen_request_ttl_ms;
    } in
    retry_expired_discoveries pruned now clock

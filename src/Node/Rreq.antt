-- ===== src/Node/Rreq.antt =====
-- A route request on its way: `handle_rreq` (crates/dldsr-node/src/protocol.rs).
use dl_dsr_rs.Base.{
  ℕ, not, List, [], ◌∷◌, ◌++◌, none, some, foldl, last?, nat_beq, leb, add_u8, add_u64,
  if◌then◌else◌,
}
use dl_dsr_rs.Core.Packet.{dsr, dl_dsr, Rreq, Rrep, rreq, rrep}
use dl_dsr_rs.Core.Tables.{label_assigned_by_neighbor}
use dl_dsr_rs.Core.Seen.{mark_if_new}
use dl_dsr_rs.Node.State.{Clock, ProtocolActions, no_actions, send, ProtocolState}
use dl_dsr_rs.Node.Lookup.{is_logical_neighbor, logical_neighbors, endpoint, previous_in_trace}

-- `if path.last().copied() != Some(id) { path.push(id) }`
unfoldable pub push_hop : ℕ → List ℕ → List ℕ
push_hop id path = elim (last? path) [
  | none ↦ path ++ (id ∷ [])
  | some x ↦ if nat_beq x id then path else path ++ (id ∷ [])
]

-- The request with the node's id on both paths.
abbrev pub visited : ProtocolState → Rreq → Rreq
visited s r = record r {
  dsr_path = push_hop s.config.node_id r.dsr_path;
  trace_path = push_hop s.config.node_id r.trace_path;
}

-- The reply of the destination.
abbrev pub reply_of : Rreq → Rrep
reply_of r = record {
  src_node_id = r.src_node_id;
  dst_node_id = r.dst_node_id;
  request_id = r.request_id;
  dsr_path = r.dsr_path;
  dldsr_label_path = r.dldsr_label_path;
  trace_path = r.trace_path;
  created_at_millis = r.created_at_millis;
}

-- `if self.config.node_id == dst_node_id { ... }`
unfoldable pub answer_rreq : ProtocolState → Rreq → ProtocolState × ProtocolActions
answer_rreq s r = elim (previous_in_trace r.trace_path s.config.node_id) [
  | none ↦ (s, no_actions)
  | some reverse_next ↦ elim (endpoint s.config reverse_next) [
    | none ↦ (s, no_actions)
    | some addr ↦ (s, send no_actions (rrep (reply_of r)) addr)
  ]
]

-- The request that is passed on.
abbrev pub next_rreq : ProtocolState → Rreq → Rreq
next_rreq s r = record r { previous_hop = s.config.node_id; hop_count = add_u8 r.hop_count 1 }

-- One round of the loop over the neighbours.
unfoldable pub forward_rreq :
    Rreq → ProtocolState × ProtocolActions → ℕ → ProtocolState × ProtocolActions
forward_rreq r (s, actions) neighbor_id =
    if nat_beq neighbor_id r.previous_hop
    then (s, actions)
    else elim (endpoint s.config neighbor_id) [
      | none ↦ (s, actions)
      | some addr ↦ (
        record s {
          metrics = record (s.metrics) { rreq_forwarded = add_u64 s.metrics.rreq_forwarded 1 };
        },
        send actions (rreq (next_rreq s r)) addr,
      )
    ]

-- The end of `handle_rreq`, once the paths are extended.
unfoldable pub route_rreq : ProtocolState → Rreq → ProtocolState × ProtocolActions
route_rreq s r =
    if nat_beq s.config.node_id r.dst_node_id
    then answer_rreq s r
    else foldl (forward_rreq r) (s, no_actions) (logical_neighbors s.config)

-- The middle of `handle_rreq`: the label of the reverse hop, in the label mode.
unfoldable pub label_rreq : ProtocolState → Rreq → ProtocolState × ProtocolActions
label_rreq s r = elim s.config.protocol_mode [
  | dsr ↦ route_rreq s r
  | dl_dsr ↦ elim (label_assigned_by_neighbor s.labels r.previous_hop) [
    | none ↦ (
      record s {
        metrics = record (s.metrics) { dropped_packets = add_u64 s.metrics.dropped_packets 1 };
      },
      no_actions,
    )
    | some label ↦ route_rreq s (record r { dldsr_label_path = r.dldsr_label_path ++ (label ∷ []) })
  ]
]

-- `handle_rreq`
unfoldable pub handle_rreq : ProtocolState → Rreq → Clock → ProtocolState × ProtocolActions
handle_rreq s r clock =
    if not (is_logical_neighbor s.config r.previous_hop)
    then (s, no_actions)
    else if leb s.config.max_rreq_hops r.hop_count
    then (
      record s {
        metrics = record (s.metrics) { rreq_dropped_ttl = add_u64 s.metrics.rreq_dropped_ttl 1 };
      },
      no_actions,
    )
    else let (seen, is_new) =
        mark_if_new s.seen_requests r.src_node_id r.request_id (clock 0)
          s.config.seen_request_ttl_ms s.config.seen_request_max_entries in
      let marked : ProtocolState = record s { seen_requests = seen } in
      if not is_new
      then (
        record marked {
          metrics = record (s.metrics) {
            rreq_dropped_duplicate = add_u64 s.metrics.rreq_dropped_duplicate 1;
          };
        },
        no_actions,
      )
      else label_rreq marked (visited s r)

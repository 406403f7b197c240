-- ===== src/Node/Tabled.antt =====
-- The invariant of the tables, handler by handler: the labels are each neighbour's own, and the
-- requests seen are bounded.
use dl_dsr_rs.Base.{
  ℕ, List, ◌≤◌, ◌≡◌, inl, inr, [], ◌∷◌, true, Bool-cases, Option-cases, Result-cases, nat_eq,
  pair_eq, All, arith, leb,
}
use dl_dsr_rs.HashMap.Keys.{HasDistinctKeys}
use dl_dsr_rs.Core.Socket.{SocketAddr}
use dl_dsr_rs.Core.Packet.{Hello, Rreq, Rrep}
use dl_dsr_rs.Core.Tables.{assign_or_reuse_label}
use dl_dsr_rs.Core.Tables.Labels.{HasOwnLabels}
use dl_dsr_rs.Core.Tables.Assign.{assign-HasOwnLabels, assign-All}
use dl_dsr_rs.Core.Seen.{SeenRequests, len, mark_if_new}
use dl_dsr_rs.Core.Seen.Duplicates.{
  len-mark_if_new-le, mark_if_new-HasDistinctKeys, len-prune-le, prune-HasDistinctKeys,
}
use dl_dsr_rs.Node.State.{Clock, later, DiscoveryState, ProtocolActions, ProtocolState}
use dl_dsr_rs.Node.Lookup.{is_logical_neighbor}
use dl_dsr_rs.Node.Discovery.{
  start_discovery, discover_and_send_data, fail_discovery, retry_discovery, retry_loop,
  retry_expired_discoveries, handle_tick,
}
use dl_dsr_rs.Node.Hello.{handle_hello}
use dl_dsr_rs.Node.Rreq.{handle_rreq}
use dl_dsr_rs.Node.Frame.{
  Frame, SameMemory, handle_rreq-Frame, handle_rreq-seen, origin_data-Quiet, flush_loop-Quiet,
  forward_rrep-Quiet, handle_rrep-Frame,
}
use dl_dsr_rs.HashMap.{contains_key}
use dl_dsr_rs.Core.Routes.{shortest}
use dl_dsr_rs.Node.Origin.{flush_pending, drop_pending_for_dst}
use dl_dsr_rs.Node.Rrep.{route_of, cache_route, accept_rrep, handle_rrep}

-- Every neighbour in the table is one of the topology, with a label of its own.
pub record HasLabels (s : ProtocolState) : Type 0 where
  pub own : HasOwnLabels s.neighbors.entries
  pub logical : All (λ e. is_logical_neighbor s.config e.0 ≡ true) s.neighbors.entries

-- The table of requests has each key once, and no more entries than it may.
pub record IsBounded (s : ProtocolState) : Type 0 where
  pub distinct : HasDistinctKeys s.seen_requests.seen
  pub within : len s.seen_requests ≤ s.config.seen_request_max_entries

pub Frame-HasLabels : (s t : ProtocolState) → Frame s t → HasLabels s → HasLabels t
Frame-HasLabels s t f h = record {
  own = rw f.neighbors h.own;
  logical = rw (f.config, f.neighbors) h.logical;
}

pub handle_hello-HasLabels :
    (s : ProtocolState) (m : Hello) (a : SocketAddr) (clock : Clock)
    → HasLabels s
    → HasLabels (handle_hello s m a clock).0
unfolding handle_hello
handle_hello-HasLabels s m a clock h =
    elim (Bool-cases (is_logical_neighbor s.config m.src_node_id)) [
      | inr n ↦ rw (n, handle_hello) h
      | inl n ↦
          elim (Result-cases (assign_or_reuse_label s.neighbors m.src_node_id a (clock 0)).1) [
            | inr (e, r) ↦ rw (n, r, handle_hello) h
            | inl (l, r) ↦
                rw (n, r, handle_hello)
                  (record {
                    own = assign-HasOwnLabels s.neighbors m.src_node_id a (clock 0) h.own;
                    logical =
                        assign-All (λ k. is_logical_neighbor s.config k ≡ true) s.neighbors
                          m.src_node_id a (clock 0) n h.logical;
                  })
          ]
    ]

-- What a table of requests may be.
abbrev Fits : ℕ → SeenRequests → Type 0
Fits max_entries seen = HasDistinctKeys seen.seen × (len seen ≤ max_entries)

mark_if_new-Fits :
    (seen : SeenRequests) (src id now ttl max_entries : ℕ)
    → Fits max_entries seen
    → Fits max_entries (mark_if_new seen src id now ttl max_entries).0
mark_if_new-Fits seen src id now ttl max_entries h = (
  mark_if_new-HasDistinctKeys seen src id now ttl max_entries h.0,
  len-mark_if_new-le seen src id now ttl max_entries,
)

pub SameMemory-IsBounded :
    (s t : ProtocolState) → Frame s t → SameMemory s t → IsBounded s → IsBounded t
SameMemory-IsBounded s t f m h = record {
  distinct = rw m.seen_requests h.distinct;
  within = rw (f.config, m.seen_requests) h.within;
}

pub handle_rreq-IsBounded :
    (s : ProtocolState) (r : Rreq) (clock : Clock)
    → IsBounded s
    → IsBounded (handle_rreq s r clock).0
handle_rreq-IsBounded s r clock h =
    let f = (handle_rreq-Frame s r clock).0 in
    let marked =
      mark_if_new-Fits s.seen_requests r.src_node_id r.request_id (clock 0)
        s.config.seen_request_ttl_ms s.config.seen_request_max_entries (h.distinct, h.within) in
    elim (handle_rreq-seen s r clock).1 [
      | inl e ↦ record { distinct = rw e h.distinct; within = rw (f.config, e) h.within }
      | inr e ↦ record { distinct = rw e marked.0; within = rw (f.config, e) marked.1 }
    ]

start_discovery-IsBounded :
    (s : ProtocolState) (dst retries : ℕ) (clock : Clock)
    → IsBounded s
    → IsBounded (start_discovery s dst retries clock).0
unfolding start_discovery
start_discovery-IsBounded s dst retries clock h =
    let marked =
      mark_if_new-Fits s.seen_requests s.config.node_id s.next_request_id (clock 0)
        s.config.seen_request_ttl_ms s.config.seen_request_max_entries (h.distinct, h.within) in
    record { distinct = marked.0; within = marked.1 }

pub discover_and_send_data-IsBounded :
    (s : ProtocolState) (dst : ℕ) (payload : List ℕ) (clock : Clock)
    → IsBounded s
    → IsBounded (discover_and_send_data s dst payload clock).0
unfolding discover_and_send_data
discover_and_send_data-IsBounded s dst payload clock h =
    elim (Option-cases (shortest s.routes dst (clock 0))) [
      | inr (route, e) ↦
          let q = origin_data-Quiet s dst payload route (later clock) in
          rw (e, discover_and_send_data) (SameMemory-IsBounded s _ q.0 q.2 h)
      | inl e ↦ elim (Bool-cases (contains_key dst s.discoveries)) [
        | inl k ↦
            rw (e, k, discover_and_send_data) (record { distinct = h.distinct; within = h.within })
        | inr k ↦
            rw (e, k, discover_and_send_data)
              (start_discovery-IsBounded _ dst 0 (later clock)
                (record { distinct = h.distinct; within = h.within }))
      ]
    ]

retry_loop-IsBounded :
    (expired : List (ℕ × DiscoveryState)) (clock : Clock) (acc : ProtocolState × ProtocolActions)
    → IsBounded acc.0
    → IsBounded (retry_loop expired clock acc).0
unfolding retry_loop
retry_loop-IsBounded [] clock acc h = h
retry_loop-IsBounded ((dst, d) ∷ expired) clock acc h =
    elim (Bool-cases (leb (acc.0).config.route_discovery_max_retries d.retries_done)) [
      | inl e ↦
          rw (e, retry_loop)
            (retry_loop-IsBounded expired clock (fail_discovery dst d acc)
              (fail_discovery-IsBounded dst d acc h))
      | inr e ↦
          rw (e, retry_loop)
            (retry_loop-IsBounded expired (later clock) (retry_discovery dst d clock acc)
              (unfold retry_discovery in (start_discovery-IsBounded acc.0 dst _ clock h)))
    ]
  where
    fail_discovery-IsBounded :
        (dst : ℕ) (d : DiscoveryState) (acc : ProtocolState × ProtocolActions)
        → IsBounded acc.0
        → IsBounded (fail_discovery dst d acc).0
    fail_discovery-IsBounded dst d acc h =
        unfold fail_discovery drop_pending_for_dst in
        (record { distinct = h.distinct; within = h.within })

pub handle_tick-IsBounded :
    (s : ProtocolState) (now : ℕ) (clock : Clock)
    → IsBounded s
    → IsBounded (handle_tick s now clock).0
unfolding handle_tick retry_expired_discoveries
handle_tick-IsBounded s now clock h =
    let fewer = len-prune-le s.seen_requests now s.config.seen_request_ttl_ms in
    let w = h.within in
    retry_loop-IsBounded _ clock _ (record {
      distinct = prune-HasDistinctKeys s.seen_requests now s.config.seen_request_ttl_ms h.distinct;
      within = omega arith;
    })

accept_rrep-seen :
    (s : ProtocolState) (r : Rrep) (clock : Clock)
    → (accept_rrep s r clock).0.seen_requests ≡ s.seen_requests
unfolding accept_rrep flush_pending
accept_rrep-seen s r clock =
    (flush_loop-Quiet r.dst_node_id (route_of s r (clock 0)) s.pending_data (later clock)
      (cache_route s r (route_of s r (clock 0)))).2.seen_requests

handle_rrep-seen :
    (s : ProtocolState) (a : SocketAddr) (r : Rrep) (clock : Clock)
    → (handle_rrep s a r clock).0.seen_requests ≡ s.seen_requests
unfolding handle_rrep
handle_rrep-seen s a r clock = grind (arith, accept_rrep-seen, forward_rrep-Quiet)

pub handle_rrep-IsBounded :
    (s : ProtocolState) (a : SocketAddr) (r : Rrep) (clock : Clock)
    → IsBounded s
    → IsBounded (handle_rrep s a r clock).0
handle_rrep-IsBounded s a r clock h =
    let e = handle_rrep-seen s a r clock in
    let f = handle_rrep-Frame s a r clock in
    record { distinct = rw e h.distinct; within = rw (f.config, e) h.within }

-- ===== src/Node/Queued.antt =====
-- The invariant of the queue and the discoveries, handler by handler.
use dl_dsr_rs.Base.{
  ℕ, ◌≤◌, ◌<◌, List, [], ◌∷◌, inl, inr, Bool-cases, Option-cases, nat_eq, leb, All-filter,
  All-append, arith, add_u32,
}
use dl_dsr_rs.HashMap.{remove, contains_key}
use dl_dsr_rs.HashMap.Laws.{get-insert}
use dl_dsr_rs.Core.Socket.{SocketAddr}
use dl_dsr_rs.Core.Packet.{Hello, HelloReply, Rrep}
use dl_dsr_rs.Core.Routes.{shortest}
use dl_dsr_rs.Node.State.{Clock, later, DiscoveryState, ProtocolActions, ProtocolState}
use dl_dsr_rs.Node.Origin.{drop_pending_for_dst}
use dl_dsr_rs.Node.Discovery.{
  start_discovery, discover_and_send_data, fail_discovery, retry_discovery, retry_loop,
  retry_expired_discoveries, handle_tick,
}
use dl_dsr_rs.Node.Hello.{handle_hello, handle_hello_reply}
use dl_dsr_rs.Node.Rrep.{route_of, cache_route, accept_rrep, forward_rrep, handle_rrep}
use dl_dsr_rs.Node.Frame.{Frame, SameQueue, Quiet, origin_data-Quiet, forward_rrep-Quiet}
use dl_dsr_rs.HashMap.Keys.{HasDistinctKeys, insert-HasDistinctKeys, filter-HasDistinctKeys}
use dl_dsr_rs.Node.Pending.{
  flush_pending-IsFlushed, drop_loop-filter, Covers, insert-Covers, remove-Covers, RetriesWithin,
  insert-RetriesWithin,
}

-- Every payload that waits has a discovery, and no discovery is past its last retry.
pub record IsQueued (s : ProtocolState) : Type 0 where
  pub covered : Covers s.discoveries s.pending_data
  pub within : RetriesWithin s.config.route_discovery_max_retries s.discoveries
  pub distinct : HasDistinctKeys s.discoveries

pub SameQueue-IsQueued : (s t : ProtocolState) → Frame s t → SameQueue s t → IsQueued s → IsQueued t
SameQueue-IsQueued s t f q h = record {
  covered = rw (q.discoveries, q.pending_data) h.covered;
  within = rw (f.config, q.discoveries) h.within;
  distinct = rw q.discoveries h.distinct;
}

Quiet-IsQueued : (s t : ProtocolState) → Quiet s t → IsQueued s → IsQueued t
Quiet-IsQueued s t q = SameQueue-IsQueued s t q.0 q.1

start_discovery-IsQueued :
    (s : ProtocolState) (dst retries : ℕ) (clock : Clock)
    → retries ≤ s.config.route_discovery_max_retries
    → IsQueued s
    → IsQueued (start_discovery s dst retries clock).0
unfolding start_discovery
start_discovery-IsQueued s dst retries clock b h = record {
  covered = insert-Covers dst _ s.discoveries s.pending_data h.covered;
  within = insert-RetriesWithin s.config.route_discovery_max_retries dst _ s.discoveries b h.within;
  distinct = insert-HasDistinctKeys dst _ s.discoveries h.distinct;
}

-- A command queues the payload under a discovery, or sends it.
pub discover_and_send_data-IsQueued :
    (s : ProtocolState) (dst : ℕ) (payload : List ℕ) (clock : Clock)
    → IsQueued s
    → IsQueued (discover_and_send_data s dst payload clock).0
unfolding discover_and_send_data start_discovery
discover_and_send_data-IsQueued s dst payload clock h =
    elim (Option-cases (shortest s.routes dst (clock 0))) [
      | inr (route, e) ↦
          rw (e, discover_and_send_data)
            (Quiet-IsQueued s _ (origin_data-Quiet s dst payload route (later clock)) h)
      | inl e ↦ elim (Bool-cases (contains_key dst s.discoveries)) [
        | inl k ↦
            rw (e, k, discover_and_send_data)
              (record {
                covered = All-append _ s.pending_data _ h.covered (k, tt);
                within = h.within;
                distinct = h.distinct;
              })
        | inr k ↦
            let d : DiscoveryState = record {
              request_id = s.next_request_id;
              last_sent_millis = clock 1;
              retries_done = 0;
            } in
            rw (e, k, discover_and_send_data)
              (record {
                covered =
                    All-append _ s.pending_data _
                      (insert-Covers dst d s.discoveries s.pending_data h.covered)
                      (ground (arith, get-insert dst dst d s.discoveries), tt);
                within =
                    insert-RetriesWithin s.config.route_discovery_max_retries dst d s.discoveries
                      (omega arith) h.within;
                distinct = insert-HasDistinctKeys dst d s.discoveries h.distinct;
              })
      ]
    ]

fail_discovery-IsQueued :
    (dst : ℕ) (d : DiscoveryState) (acc : ProtocolState × ProtocolActions)
    → IsQueued acc.0
    → IsQueued (fail_discovery dst d acc).0
unfolding fail_discovery drop_pending_for_dst remove
fail_discovery-IsQueued dst d (s, actions) h = record {
  covered =
      rw ((drop_loop-filter dst s.pending_data).1)
        (remove-Covers dst s.discoveries s.pending_data h.covered);
  within = All-filter _ _ s.discoveries h.within;
  distinct = filter-HasDistinctKeys _ s.discoveries h.distinct;
}

add_u32-le : (r max : ℕ) → r < max → add_u32 r 1 ≤ max
unfolding add_u32
add_u32-le r max h = omega arith

retry_loop-IsQueued :
    (expired : List (ℕ × DiscoveryState)) (clock : Clock) (acc : ProtocolState × ProtocolActions)
    → IsQueued acc.0
    → IsQueued (retry_loop expired clock acc).0
unfolding retry_loop
retry_loop-IsQueued [] clock acc h = h
retry_loop-IsQueued ((dst, d) ∷ expired) clock acc h =
    elim (Bool-cases (leb (acc.0).config.route_discovery_max_retries d.retries_done)) [
      | inl e ↦
          rw (e, retry_loop)
            (retry_loop-IsQueued expired clock (fail_discovery dst d acc)
              (fail_discovery-IsQueued dst d acc h))
      | inr e ↦
          rw (e, retry_loop)
            (retry_loop-IsQueued expired (later clock) (retry_discovery dst d clock acc) (
              unfold retry_discovery in
              (start_discovery-IsQueued acc.0 dst (add_u32 d.retries_done 1) clock
                (add_u32-le d.retries_done _ (ground arith)) h)))
    ]

pub handle_tick-IsQueued :
    (s : ProtocolState) (now : ℕ) (clock : Clock)
    → IsQueued s
    → IsQueued (handle_tick s now clock).0
unfolding handle_tick retry_expired_discoveries
handle_tick-IsQueued s now clock h =
    retry_loop-IsQueued _ clock _
      (record { covered = h.covered; within = h.within; distinct = h.distinct })

-- A reply that arrives ends the discovery and sends what waited for it.
accept_rrep-IsQueued :
    (s : ProtocolState) (r : Rrep) (clock : Clock) → IsQueued s → IsQueued (accept_rrep s r clock).0
unfolding accept_rrep remove
accept_rrep-IsQueued s r clock h =
    let route = route_of s r (clock 0) in
    let cached = cache_route s r route in
    let f = flush_pending-IsFlushed cached r.dst_node_id route (later clock) in
    record {
      covered =
          rw (f.discoveries, f.pending_data)
            (remove-Covers r.dst_node_id s.discoveries s.pending_data h.covered);
      within = rw (f.config, f.discoveries) (All-filter _ _ s.discoveries h.within);
      distinct = rw f.discoveries (filter-HasDistinctKeys _ s.discoveries h.distinct);
    }

pub handle_rrep-IsQueued :
    (s : ProtocolState) (a : SocketAddr) (r : Rrep) (clock : Clock)
    → IsQueued s
    → IsQueued (handle_rrep s a r clock).0
unfolding handle_rrep
handle_rrep-IsQueued s a r clock h = grind (
  arith,
  accept_rrep-IsQueued s r clock h,
  Quiet-IsQueued s (forward_rrep s r).0 (forward_rrep-Quiet s r) h,
)

pub handle_hello-IsQueued :
    (s : ProtocolState) (m : Hello) (a : SocketAddr) (clock : Clock)
    → IsQueued s
    → IsQueued (handle_hello s m a clock).0
unfolding handle_hello
handle_hello-IsQueued s m a clock h = ground arith

pub handle_hello_reply-IsQueued :
    (s : ProtocolState) (m : HelloReply) → IsQueued s → IsQueued (handle_hello_reply s m).0
unfolding handle_hello_reply
handle_hello_reply-IsQueued s m h = ground arith

-- ===== src/Tests/Handlers.antt =====
-- The theorems on requests, replies and the queue, at concrete inputs.
use dl_dsr_rs.Base.{
  ℕ, nat_eq, pair_eq, some, none, ◌+◌, ◌≡◌, ◌-◌, ◌≤◌, ◌<◌, refl, ◌↔◌, true, [], ◌∷◌, ok, filter,
  arith,
}
use dl_dsr_rs.Core.Packet.{dsr, Rreq, rrep}
use dl_dsr_rs.Core.Routes.{RouteEntry, new_dsr}
use dl_dsr_rs.Node.State.{Clock, ProtocolState, new}
use dl_dsr_rs.Node.Lookup.{is_logical_neighbor}
use dl_dsr_rs.Node.Origin.{flush_pending}
use dl_dsr_rs.Node.Rreq.{handle_rreq}
use dl_dsr_rs.Node.Rrep.{validate_rrep}
use dl_dsr_rs.Node.Pending.{waits_for}
use dl_dsr_rs.Node.Flood.{handle_rreq_guard}
use dl_dsr_rs.Node.Flush.{add_times, flush_pending-drops}
use dl_dsr_rs.Node.Reply.{ComesBack, validate_rrep_iff}
use dl_dsr_rs.HashMap.{get}
use dl_dsr_rs.Core.Socket.{SocketAddr}
use dl_dsr_rs.Core.Packet.{Rrep, DataPacket}
use dl_dsr_rs.Core.Routes.{shortest, hop_count}
use dl_dsr_rs.Node.State.{route_cached}
use dl_dsr_rs.Node.Lookup.{node_id_by_endpoint, endpoint}
use dl_dsr_rs.Node.Rrep.{handle_rrep, route_of}
use dl_dsr_rs.Node.Data.{handle_data}
use dl_dsr_rs.Node.Accept.{handle_rrep-accepts}
use dl_dsr_rs.Node.Fate.{Fate, handle_data-Fate}
use dl_dsr_rs.Network.Answer.{handle_rreq-replies}
use dl_dsr_rs.Network.ReplyRoute.{Hears, Returns, reply-Returns}
use dl_dsr_rs.Tests.Inputs.{addr, chain_config, rreq_at}
use dl_dsr_rs.Tests.Program.{program}

abbrev clock : Clock
clock i = 1000 + i

abbrev relay : ProtocolState
relay = new (chain_config 1 dsr)

handle_rreq_guard_example :
    (is_logical_neighbor relay.config 0 ≡ true)
    × (0 < 4)
    × ¬ ((t : ℕ) × (get (0, 77) relay.seen_requests.seen ≡ some t) × (1000 - t ≤ 60000))
unfolding program
handle_rreq_guard_example = handle_rreq_guard relay (rreq_at 0) clock tt (λ e. cc)

abbrev for_me : Rreq
for_me = record (rreq_at 0) { dst_node_id = 1 }

handle_rreq-replies_example : (handle_rreq relay for_me clock).1 ≡ record {
  outbound =
      record {
        packet = rrep (record {
          src_node_id = 0;
          dst_node_id = 1;
          request_id = 77;
          dsr_path = 0 ∷ 1 ∷ [];
          dldsr_label_path = [];
          trace_path = 0 ∷ 1 ∷ [];
          created_at_millis = for_me.created_at_millis;
        });
        dst = addr 7000;
      }
      ∷ [];
  events = [];
}
unfolding program
handle_rreq-replies_example =
    handle_rreq-replies relay for_me clock [] [] [] (addr 7000) refl refl (omega arith) refl refl
      refl refl (refl, (refl, tt)) refl

validate_rrep_iff_example :
    (validate_rrep relay.config (addr 7002) (0 ∷ 1 ∷ 2 ∷ 3 ∷ []) ≡ ok tt)
    ↔ ComesBack relay.config (addr 7002) (0 ∷ 1 ∷ 2 ∷ 3 ∷ [])
validate_rrep_iff_example = validate_rrep_iff relay.config (addr 7002) (0 ∷ 1 ∷ 2 ∷ 3 ∷ [])

-- A node with payloads for two destinations.
abbrev waiting : ProtocolState
waiting = record (new (chain_config 0 dsr)) {
  pending_data =
      record { dst_node_id = 3; payload = 7 ∷ [] }
      ∷ record { dst_node_id = 2; payload = 8 ∷ [] }
      ∷ record { dst_node_id = 3; payload = 9 ∷ [] }
      ∷ [];
}

abbrev along : RouteEntry
along = new_dsr 3 (0 ∷ 1 ∷ 2 ∷ 3 ∷ []) 9000

abbrev nowhere : RouteEntry
nowhere = new_dsr 3 [] 9000

flush_pending-drops_example :
    ((flush_pending waiting 3 nowhere clock).1 ≡ [])
    × ((flush_pending waiting 3 nowhere clock).0.pending_data
        ≡ record { dst_node_id = 2; payload = 8 ∷ [] } ∷ [])
    × ((flush_pending waiting 3 nowhere clock).0.metrics.data_dropped ≡ add_times 0 2)
unfolding program
flush_pending-drops_example = flush_pending-drops waiting 3 nowhere clock refl

-- The reply of node 3 to node 0.
abbrev answer : Rrep
answer = record {
  src_node_id = 0;
  dst_node_id = 3;
  request_id = 7;
  dsr_path = 0 ∷ 1 ∷ 2 ∷ 3 ∷ [];
  dldsr_label_path = [];
  trace_path = 0 ∷ 1 ∷ 2 ∷ 3 ∷ [];
  created_at_millis = 5;
}

handle_rrep-accepts_example :
    let (t, actions) = handle_rrep waiting (addr 7001) answer clock in
    ((best : RouteEntry) × (shortest t.routes 3 2000 ≡ some best)
      × (hop_count best ≤ hop_count (route_of waiting answer 1000)))
    × (get 3 t.discoveries ≡ none)
    × (filter (waits_for 3) t.pending_data ≡ [])
    × (actions.events ≡ route_cached 0 3 7 ∷ [])
unfolding program
handle_rrep-accepts_example =
    handle_rrep-accepts waiting (addr 7001) answer clock 2000
      (record {
        next = 1;
        place = 0;
        known = refl;
        logical = refl;
        on_trace = refl;
        successor = refl;
        reverse = tt;
      })
      refl (omega arith)

abbrev nodes : ℕ → ProtocolState
nodes n = new (chain_config n dsr)

abbrev at : ℕ → SocketAddr
at n = addr (7000 + n)

hears :
    (a b : ℕ)
    → node_id_by_endpoint (nodes a).config (at b) ≡ some b
    → is_logical_neighbor (nodes a).config b ≡ true
    → is_logical_neighbor (nodes b).config a ≡ true
    → endpoint (nodes b).config a ≡ some (at a)
    → Hears nodes at (λ n. clock) a b
unfolding new
hears a b known logical back reaches = record {
  id = refl;
  known = known;
  logical = logical;
  back = back;
  reaches = reaches;
}

reply-Returns_example : Returns nodes at (λ n. clock) answer 2 (addr 7003)
unfolding program
reply-Returns_example =
    reply-Returns nodes at (λ n. clock) answer 2 2 3 (refl, (refl, (refl, (refl, tt))))
      (
        hears 0 1 refl refl refl refl,
        (hears 1 2 refl refl refl refl, (hears 2 3 refl refl refl refl, tt)),
      )
      refl refl refl

-- A payload on its way from 0 to 3.
abbrev travelling : DataPacket
travelling = record {
  src_node_id = 0;
  dst_node_id = 3;
  sequence = 1;
  protocol_mode = dsr;
  route_cursor = 1;
  dsr_path = 0 ∷ 1 ∷ 2 ∷ 3 ∷ [];
  dldsr_label_path = [];
  payload = 7 ∷ [];
  created_at_millis = 5;
}

handle_data-Fate_example : Fate relay travelling (handle_data relay (addr 7000) travelling clock)
unfolding program
handle_data-Fate_example = handle_data-Fate relay travelling (addr 7000) clock (refl, (refl, tt))

-- A topology in which node 1 names a neighbour 9 that is not there.

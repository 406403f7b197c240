-- ===== src/Node/Frame.antt =====
-- What the handlers leave alone: the configuration and the tables of labels, which the hellos
-- write; and the queue of payloads and the discoveries, which packets on their way do not touch.
use dl_dsr_rs.Base.{
  ℕ, ◌≡◌, refl, ◌⊎◌, List, [], ◌∷◌, inl, inr, Bool-cases, nat_beq, leb, foldl_inv, arith,
}
use dl_dsr_rs.Core.Packet.{DataPacket, Rreq, Rrep}
use dl_dsr_rs.Core.Socket.{SocketAddr}
use dl_dsr_rs.Core.Routes.{RouteEntry}
use dl_dsr_rs.Core.Seen.{SeenRequests, mark_if_new}
use dl_dsr_rs.Node.State.{
  Clock, later, Reason, PendingData, DiscoveryState, ProtocolActions, no_actions, ProtocolState,
}
use dl_dsr_rs.Node.Lookup.{logical_neighbors}
use dl_dsr_rs.Node.Origin.{drop_data, origin_data, flush_loop, flush_pending, drop_pending_for_dst}
use dl_dsr_rs.Node.Discovery.{
  start_discovery, discover_and_send_data, fail_discovery, retry_discovery, retry_loop,
  retry_expired_discoveries, handle_tick,
}
use dl_dsr_rs.Node.Rreq.{forward_rreq, answer_rreq, route_rreq, label_rreq, handle_rreq}
use dl_dsr_rs.Node.Rrep.{accept_rrep, forward_rrep, handle_rrep}
use dl_dsr_rs.Node.Data.{
  deliver_data, pass_on, forward_dsr, forward_dldsr, forward_data, handle_data,
}

-- The configuration and the tables of labels are the same.
pub record Frame (s t : ProtocolState) : Type 0 where
  pub config : t.config ≡ s.config
  pub neighbors : t.neighbors ≡ s.neighbors
  pub labels : t.labels ≡ s.labels

-- The queue of payloads and the discoveries are the same.
pub record SameQueue (s t : ProtocolState) : Type 0 where
  pub pending_data : t.pending_data ≡ s.pending_data
  pub discoveries : t.discoveries ≡ s.discoveries

pub Frame-trans : (s t u : ProtocolState) → Frame s t → Frame t u → Frame s u
Frame-trans s t u h k = ground arith

pub SameQueue-trans : (s t u : ProtocolState) → SameQueue s t → SameQueue t u → SameQueue s u
SameQueue-trans s t u h k = ground arith

-- The requests seen and the cached routes are the same.
pub record SameMemory (s t : ProtocolState) : Type 0 where
  pub seen_requests : t.seen_requests ≡ s.seen_requests
  pub routes : t.routes ≡ s.routes

SameMemory-trans : (s t u : ProtocolState) → SameMemory s t → SameMemory t u → SameMemory s u
SameMemory-trans s t u h k = ground arith

-- All of these at once: what is left to change is the counters and the next numbers.
abbrev pub Quiet : ProtocolState → ProtocolState → Type 0
Quiet s t = Frame s t × SameQueue s t × SameMemory s t

pub Quiet-refl : (s : ProtocolState) → Quiet s s
Quiet-refl s = (
  record { config = refl; neighbors = refl; labels = refl },
  record { pending_data = refl; discoveries = refl },
  record { seen_requests = refl; routes = refl },
)

pub Quiet-trans : (s t u : ProtocolState) → Quiet s t → Quiet t u → Quiet s u
Quiet-trans s t u h k =
    (Frame-trans s t u h.0 k.0, SameQueue-trans s t u h.1 k.1, SameMemory-trans s t u h.2 k.2)

pub drop_data-Quiet : (s : ProtocolState) (dst : ℕ) (r : Reason) → Quiet s (drop_data s dst r).0
unfolding drop_data
drop_data-Quiet s dst r = ground arith

pub origin_data-Quiet :
    (s : ProtocolState) (dst : ℕ) (payload : List ℕ) (route : RouteEntry) (clock : Clock)
    → Quiet s (origin_data s dst payload route clock).0
unfolding origin_data drop_data
origin_data-Quiet s dst payload route clock = ground arith

pub flush_loop-Quiet :
    (dst : ℕ) (route : RouteEntry) (queue : List PendingData) (clock : Clock) (s : ProtocolState)
    → Quiet s (flush_loop dst route queue clock s).0
unfolding flush_loop
flush_loop-Quiet dst route [] clock s = Quiet-refl s
flush_loop-Quiet dst route (p ∷ queue) clock s = elim (Bool-cases (nat_beq p.dst_node_id dst)) [
  | inl e ↦
      rw (e, flush_loop)
        (Quiet-trans s _ _ (origin_data-Quiet s dst p.payload route clock) (
          flush_loop-Quiet dst route queue (later clock)
            (origin_data s dst p.payload route clock).0))
  | inr e ↦ rw (e, flush_loop) (flush_loop-Quiet dst route queue clock s)
]

-- A request on its way.
forward_rreq-Quiet :
    (r : Rreq) (s : ProtocolState) (acc : ProtocolState × ProtocolActions) (n : ℕ)
    → Quiet s acc.0
    → Quiet s (forward_rreq r acc n).0
unfolding forward_rreq
forward_rreq-Quiet r s acc n h = ground arith

pub route_rreq-Quiet : (s : ProtocolState) (r : Rreq) → Quiet s (route_rreq s r).0
unfolding route_rreq answer_rreq
route_rreq-Quiet s r = elim (Bool-cases (nat_beq s.config.node_id r.dst_node_id)) [
  | inl e ↦ ground arith
  | inr e ↦
      rw (e, route_rreq)
        (foldl_inv (λ acc. Quiet s acc.0) (forward_rreq r) (s, no_actions)
          (logical_neighbors s.config) (λ acc n h. forward_rreq-Quiet r s acc n h) (Quiet-refl s))
]

label_rreq-Quiet : (s : ProtocolState) (r : Rreq) → Quiet s (label_rreq s r).0
unfolding label_rreq
label_rreq-Quiet s r = grind (arith, route_rreq-Quiet)

-- The requests seen after a call are those before, or those with the request marked.
pub handle_rreq-Frame :
    (s : ProtocolState) (r : Rreq) (clock : Clock)
    → Frame s (handle_rreq s r clock).0 × SameQueue s (handle_rreq s r clock).0
unfolding handle_rreq
handle_rreq-Frame s r clock = grind (arith, label_rreq-Quiet)

abbrev pub marked_seen : ProtocolState → Rreq → ℕ → SeenRequests
marked_seen s r now =
    (mark_if_new s.seen_requests r.src_node_id r.request_id now s.config.seen_request_ttl_ms
      s.config.seen_request_max_entries).0

pub handle_rreq-seen :
    (s : ProtocolState) (r : Rreq) (clock : Clock)
    → let t = (handle_rreq s r clock).0 in
      (t.routes ≡ s.routes)
      × ((t.seen_requests ≡ s.seen_requests) ⊎ (t.seen_requests ≡ marked_seen s r (clock 0)))
unfolding handle_rreq
handle_rreq-seen s r clock = grind (arith, label_rreq-Quiet)

-- A payload on its way.
pass_on-Quiet : (s : ProtocolState) (p : DataPacket) (a : SocketAddr) → Quiet s (pass_on s p a).0
unfolding pass_on
pass_on-Quiet s p a = ground arith

forward_data-Quiet : (s : ProtocolState) (p : DataPacket) → Quiet s (forward_data s p).0
unfolding forward_data forward_dsr forward_dldsr
forward_data-Quiet s p = grind (arith, drop_data-Quiet, pass_on-Quiet)

deliver_data-Quiet :
    (s : ProtocolState) (n : ℕ) (p : DataPacket) (clock : Clock)
    → Quiet s (deliver_data s n p clock).0
unfolding deliver_data
deliver_data-Quiet s n p clock = grind (arith, drop_data-Quiet)

pub handle_data-Quiet :
    (s : ProtocolState) (a : SocketAddr) (p : DataPacket) (clock : Clock)
    → Quiet s (handle_data s a p clock).0
unfolding handle_data
handle_data-Quiet s a p clock =
    grind (arith, drop_data-Quiet, deliver_data-Quiet, forward_data-Quiet)

-- A reply on its way back, and one that arrives.
pub forward_rrep-Quiet : (s : ProtocolState) (r : Rrep) → Quiet s (forward_rrep s r).0
unfolding forward_rrep
forward_rrep-Quiet s r = ground arith

accept_rrep-Frame :
    (s : ProtocolState) (r : Rrep) (clock : Clock) → Frame s (accept_rrep s r clock).0
unfolding accept_rrep flush_pending
accept_rrep-Frame s r clock = grind (arith, flush_loop-Quiet)

pub handle_rrep-Frame :
    (s : ProtocolState) (a : SocketAddr) (r : Rrep) (clock : Clock)
    → Frame s (handle_rrep s a r clock).0
unfolding handle_rrep
handle_rrep-Frame s a r clock = grind (arith, accept_rrep-Frame, forward_rrep-Quiet)

-- Discovery at the source.
pub start_discovery-Frame :
    (s : ProtocolState) (dst retries : ℕ) (clock : Clock)
    → Frame s (start_discovery s dst retries clock).0
unfolding start_discovery
start_discovery-Frame s dst retries clock = ground arith

pub discover_and_send_data-Frame :
    (s : ProtocolState) (dst : ℕ) (payload : List ℕ) (clock : Clock)
    → Frame s (discover_and_send_data s dst payload clock).0
unfolding discover_and_send_data
discover_and_send_data-Frame s dst payload clock =
    grind (arith, start_discovery-Frame, origin_data-Quiet)

pub fail_discovery-Frame :
    (dst : ℕ) (d : DiscoveryState) (acc : ProtocolState × ProtocolActions)
    → Frame acc.0 (fail_discovery dst d acc).0
unfolding fail_discovery drop_pending_for_dst
fail_discovery-Frame dst d acc = ground arith

pub retry_discovery-Frame :
    (dst : ℕ) (d : DiscoveryState) (clock : Clock) (acc : ProtocolState × ProtocolActions)
    → Frame acc.0 (retry_discovery dst d clock acc).0
unfolding retry_discovery
retry_discovery-Frame dst d clock acc = grind (arith, start_discovery-Frame)

pub retry_loop-Frame :
    (expired : List (ℕ × DiscoveryState)) (clock : Clock) (acc : ProtocolState × ProtocolActions)
    → Frame acc.0 (retry_loop expired clock acc).0
unfolding retry_loop
retry_loop-Frame [] clock acc = record { config = refl; neighbors = refl; labels = refl }
retry_loop-Frame ((dst, d) ∷ expired) clock acc =
    elim (Bool-cases (leb (acc.0).config.route_discovery_max_retries d.retries_done)) [
      | inl e ↦
          rw (e, retry_loop)
            (Frame-trans acc.0 _ _ (fail_discovery-Frame dst d acc)
              (retry_loop-Frame expired clock (fail_discovery dst d acc)))
      | inr e ↦
          rw (e, retry_loop)
            (Frame-trans acc.0 _ _ (retry_discovery-Frame dst d clock acc)
              (retry_loop-Frame expired (later clock) (retry_discovery dst d clock acc)))
    ]

pub handle_tick-Frame :
    (s : ProtocolState) (now : ℕ) (clock : Clock) → Frame s (handle_tick s now clock).0
unfolding handle_tick retry_expired_discoveries
handle_tick-Frame s now clock = grind (arith, retry_loop-Frame)

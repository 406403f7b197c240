-- ===== src/Node/Flush.antt =====
-- What a reply sets free: the payloads that waited go out in their order, with the next sequence
-- numbers, or all of them are dropped.
use dl_dsr_rs.Base.{
  ℕ, zero, suc, ◌≡◌, refl, inl, inr, Bool-cases, List, [], ◌∷◌, Option, none, some, filter, length,
  nat_beq, add_u64, arith,
}
use dl_dsr_rs.Core.Socket.{SocketAddr}
use dl_dsr_rs.Core.Packet.{data_packet}
use dl_dsr_rs.Core.Routes.{RouteEntry}
use dl_dsr_rs.Node.State.{Clock, later, OutboundPacket, PendingData, ProtocolState}
use dl_dsr_rs.Node.Lookup.{next_data_endpoint}
use dl_dsr_rs.Node.Origin.{drop_data, lookup_packet, origin_data, flush_loop, flush_pending}
use dl_dsr_rs.Node.Pending.{waits_for, waits_not, flush_loop-remaining}

-- The packets of a list of payloads: one each, to the address, numbered from `sequence`, stamped
-- by the readings of the clock.
pub numbered :
    ProtocolState → ℕ → RouteEntry → SocketAddr → ℕ → Clock → List PendingData → List OutboundPacket
numbered s dst route a sequence clock [] = []
numbered s dst route a sequence clock (p ∷ ps) =
    record {
      packet = data_packet (record (lookup_packet s dst p.payload route (clock 0)) {
        sequence = sequence;
        route_cursor = 1;
      });
      dst = a;
    }
    ∷ numbered s dst route a (add_u64 sequence 1) (later clock) ps

-- The address to which a route leads first, for a node in this mode.
abbrev pub first_hop : ProtocolState → RouteEntry → Option SocketAddr
first_hop s route = next_data_endpoint s (lookup_packet s 0 [] route 0)

-- The first hop depends on the configuration, the labels and the route alone.
first_hop_same :
    (s : ProtocolState) (dst now n : ℕ) (payload : List ℕ) (route : RouteEntry)
    → next_data_endpoint (record s { next_sequence = n }) (lookup_packet s dst payload route now)
      ≡ first_hop s route
unfolding next_data_endpoint lookup_packet
first_hop_same s dst now n payload route = ground arith

-- The state in which the next sequence number is used up.
abbrev advanced : ProtocolState → ProtocolState
advanced s = record s { next_sequence = add_u64 s.next_sequence 1 }

-- A route with a first hop sends one packet, and one without sends none.
pub origin_data-sends :
    (s : ProtocolState) (dst : ℕ) (payload : List ℕ) (route : RouteEntry) (clock : Clock)
    (a : SocketAddr)
    → first_hop s route ≡ some a
    → (origin_data s dst payload route clock).0 ≡ advanced s
unfolding origin_data
origin_data-sends s dst payload route clock a h =
    ground (arith, first_hop_same s dst (clock 0) (add_u64 s.next_sequence 1) payload route)

origin_data_fails :
    (s : ProtocolState) (dst : ℕ) (payload : List ℕ) (route : RouteEntry) (clock : Clock)
    → first_hop s route ≡ none
    → ((origin_data s dst payload route clock).1.outbound ≡ [])
      × ((origin_data s dst payload route clock).0.metrics.data_dropped
          ≡ add_u64 s.metrics.data_dropped 1)
      × (first_hop (origin_data s dst payload route clock).0 route ≡ none)
unfolding origin_data drop_data next_data_endpoint lookup_packet
origin_data_fails s dst payload route clock h = ground arith

-- A counter after `n` more.
pub add_times : ℕ → ℕ → ℕ
add_times c zero = c
add_times c (suc n) = add_times (add_u64 c 1) n

flush_loop_drops :
    (dst : ℕ) (route : RouteEntry) (queue : List PendingData) (clock : Clock) (s : ProtocolState)
    → first_hop s route ≡ none
    → ((flush_loop dst route queue clock s).1 ≡ [])
      × ((flush_loop dst route queue clock s).0.metrics.data_dropped
          ≡ add_times s.metrics.data_dropped (length (filter (waits_for dst) queue)))
unfolding flush_loop add_times
flush_loop_drops dst route [] clock s h = (refl, refl)
flush_loop_drops dst route (p ∷ queue) clock s h = elim (Bool-cases (nat_beq p.dst_node_id dst)) [
  | inr other ↦ rw (other, flush_loop) (flush_loop_drops dst route queue clock s h)
  | inl mine ↦
      let (out, count, again) = origin_data_fails s dst p.payload route clock h in
      let t = (origin_data s dst p.payload route clock).0 in
      let (rest, more) = flush_loop_drops dst route queue (later clock) t again in
      ground (arith, mine, out, count, rest, more)
]

-- Where the route has no first hop, the flush sends nothing, takes the payloads that wait for the
-- destination off the queue and counts each of them as dropped; the others stay, in their order.
pub flush_pending-drops :
    (s : ProtocolState) (dst : ℕ) (route : RouteEntry) (clock : Clock)
    → first_hop s route ≡ none
    → ((flush_pending s dst route clock).1 ≡ [])
      × ((flush_pending s dst route clock).0.pending_data ≡ filter (waits_not dst) s.pending_data)
      × ((flush_pending s dst route clock).0.metrics.data_dropped
          ≡ add_times s.metrics.data_dropped (length (filter (waits_for dst) s.pending_data)))
unfolding flush_pending
flush_pending-drops s dst route clock h =
    let (none_out, count) = flush_loop_drops dst route s.pending_data clock s h in
    (none_out, flush_loop-remaining dst route s.pending_data clock s, count)

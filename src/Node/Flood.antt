-- ===== src/Node/Flood.antt =====
-- What `handle_rreq` sends: the hop limit, and one copy to each other neighbour.
use dl_dsr_rs.Base.{
  ℕ, ◌+◌, ◌≤◌, ◌<◌, ◌≡◌, refl, sym, subst, ◌≢◌, true, false, inl, inr, ◌⊎◌, List, [], ◌∷◌, ◌++◌,
  some, nat_beq, arith, pair_eq, add_u8, ◌-◌, add_u8_lt, ◌^◌,
}
use dl_dsr_rs.Core.Socket.{SocketAddr}
use dl_dsr_rs.Core.Packet.{ProtocolMode, dsr, dl_dsr, Rreq, rreq, rrep}
use dl_dsr_rs.Core.Topology.{NodeConfig}
use dl_dsr_rs.Core.Tables.{label_assigned_by_neighbor}
use dl_dsr_rs.HashMap.{get}
use dl_dsr_rs.HashMap.Keys.{HasDistinctKeys}
use dl_dsr_rs.Core.Seen.{mark_if_new}
use dl_dsr_rs.Core.Seen.Duplicates.{mark_if_new-duplicate_iff}
use dl_dsr_rs.Node.State.{Clock, ProtocolState}
use dl_dsr_rs.Node.Lookup.{is_logical_neighbor, logical_neighbors, endpoint, previous_in_trace}
use dl_dsr_rs.Node.Rreq.{
  push_hop, visited, reply_of, answer_rreq, next_rreq, route_rreq, label_rreq, handle_rreq,
}
use dl_dsr_rs.Node.Copies.{targets, copies, route_rreq-outbound}

mode_cases : (m : ProtocolMode) → (m ≡ dsr) ⊎ (m ≡ dl_dsr)
mode_cases dsr = inl refl
mode_cases dl_dsr = inr refl

-- The label path of a request once the node has read it: in the label mode it grows by the label
-- that the previous hop gave the node.
abbrev pub LabelStep : ProtocolState → Rreq → List ℕ → Type 0
LabelStep s r ls = elim s.config.protocol_mode [
  | dsr ↦ ls ≡ r.dldsr_label_path
  | dl_dsr ↦
      (l : ℕ) × (label_assigned_by_neighbor s.labels r.previous_hop ≡ some l)
      × (ls ≡ r.dldsr_label_path ++ (l ∷ []))
]

label_rreq-route :
    (s : ProtocolState) (r : Rreq) (ls : List ℕ)
    → LabelStep s r ls
    → label_rreq s r ≡ route_rreq s (record r { dldsr_label_path = ls })
unfolding label_rreq
label_rreq-route s r ls h = elim (mode_cases s.config.protocol_mode) [
  | inl m ↦ ground arith
  | inr m ↦
      let (l, given, path) =
        subst
          (λ mode. elim mode [
            | dsr ↦ ls ≡ r.dldsr_label_path
            | dl_dsr ↦
                (l : ℕ) × (label_assigned_by_neighbor s.labels r.previous_hop ≡ some l)
                × (ls ≡ r.dldsr_label_path ++ (l ∷ []))
          ])
          m h in
      ground (arith, given, path)
]

handle_rreq_taken :
    (s : ProtocolState) (r : Rreq) (clock : Clock)
    → (handle_rreq s r clock).1.outbound ≢ []
    → (is_logical_neighbor s.config r.previous_hop ≡ true)
      × (r.hop_count < s.config.max_rreq_hops)
      × ((mark_if_new s.seen_requests r.src_node_id r.request_id
            (clock 0)
            s.config.seen_request_ttl_ms
            s.config.seen_request_max_entries).1
          ≡ true)
unfolding handle_rreq
handle_rreq_taken s r clock h = ground arith

-- Where a node whose table of requests has distinct keys sends anything on a request, the
-- request's previous hop is a neighbour, its hop count is below the limit, and the table holds no
-- mark of the request that is within the time to live.
pub handle_rreq_guard :
    (s : ProtocolState) (r : Rreq) (clock : Clock)
    → HasDistinctKeys s.seen_requests.seen
    → (handle_rreq s r clock).1.outbound ≢ []
    → (is_logical_neighbor s.config r.previous_hop ≡ true)
      × (r.hop_count < s.config.max_rreq_hops)
      × ¬ (
          (t : ℕ) × (get (r.src_node_id, r.request_id) s.seen_requests.seen ≡ some t)
          × (clock 0 - t ≤ s.config.seen_request_ttl_ms))
handle_rreq_guard s r clock d h =
    let (near, low, is_new) = handle_rreq_taken s r clock h in
    (
      near,
      low,
      λ held.
          let seen =
            (mark_if_new-duplicate_iff s.seen_requests r.src_node_id r.request_id (clock 0)
                s.config.seen_request_ttl_ms s.config.seen_request_max_entries d).1
              held in
          cc,
    )

-- A request with the node on its paths, and the given labels.
abbrev pub extended : ProtocolState → Rreq → List ℕ → Rreq
extended s r ls = record (visited s r) { dldsr_label_path = ls }

module _ (s : ProtocolState) (r : Rreq) (clock : Clock) (ls : List ℕ)
    (from_neighbor : is_logical_neighbor s.config r.previous_hop ≡ true)
    (hops_left : r.hop_count < s.config.max_rreq_hops)
    (is_new : (mark_if_new s.seen_requests r.src_node_id r.request_id
        (clock 0)
        s.config.seen_request_ttl_ms
        s.config.seen_request_max_entries).1
      ≡ true)
    (labelled : LabelStep s r ls) where
  handle_rreq-route :
      (t : ProtocolState) × (handle_rreq s r clock ≡ route_rreq t (extended s r ls))
      × (t.config ≡ s.config)
  unfolding handle_rreq
  handle_rreq-route =
      let marked : ProtocolState = record s {
        seen_requests =
            (mark_if_new s.seen_requests r.src_node_id r.request_id (clock 0)
              s.config.seen_request_ttl_ms s.config.seen_request_max_entries).0;
      } in
      (
        marked,
        ground (
          arith,
          from_neighbor,
          hops_left,
          is_new,
          label_rreq-route marked (visited s r) ls labelled,
        ),
        refl,
      )

  pub handle_rreq-forwards :
      nat_beq s.config.node_id r.dst_node_id ≡ false
      → s.config.max_rreq_hops < 2 ^ 8
      → ((handle_rreq s r clock).1 ≡ record {
        outbound =
            copies
              (rreq (next_rreq s (extended s r ls)))
              (targets s.config r.previous_hop (logical_neighbors s.config));
        events = [];
      })
        × ((next_rreq s (extended s r ls)).hop_count ≡ r.hop_count + 1)
        × (r.hop_count + 1 ≤ s.config.max_rreq_hops)
  handle_rreq-forwards other small =
      let (t, routed, c) = handle_rreq-route in
      let out = route_rreq-outbound t (extended s r ls) (rw c other) in
      (
        rw routed (
            subst
              (λ (k : NodeConfig). (route_rreq t (extended s r ls)).1 ≡ record {
                outbound =
                    copies
                      (rreq (record (extended s r ls) {
                        previous_hop = k.node_id;
                        hop_count = add_u8 r.hop_count 1;
                      }))
                      (targets k r.previous_hop (logical_neighbors k));
                events = [];
              })
              c out),
        add_u8_lt r.hop_count 1 (omega (arith, hops_left)),
        omega (arith, hops_left),
      )

  -- Let a request come from a neighbour, with hops left, be new and, in the label mode, find the
  -- label that the previous hop gave the node. Where it is for the node, and the node before it
  -- on the trace has an address, the node sends exactly one reply, to that address, with the
  -- extended paths of the request; and it emits no event.
  pub handle_rreq-answers :
      (back : ℕ) (a : SocketAddr)
      → nat_beq s.config.node_id r.dst_node_id ≡ true
      → previous_in_trace (push_hop s.config.node_id r.trace_path) s.config.node_id ≡ some back
      → endpoint s.config back ≡ some a
      → (handle_rreq s r clock).1 ≡ record {
        outbound = record { packet = rrep (reply_of (extended s r ls)); dst = a } ∷ [];
        events = [];
      }
  unfolding route_rreq answer_rreq
  handle_rreq-answers back a mine before known =
      let (t, routed, c) = handle_rreq-route in
      let b =
        subst
          (λ (k : NodeConfig).
            previous_in_trace (push_hop s.config.node_id r.trace_path) k.node_id ≡ some back)
          (sym c) before in
      let e = subst (λ (k : NodeConfig). endpoint k back ≡ some a) (sym c) known in
      rw routed (ground (arith, c, mine, b, e))

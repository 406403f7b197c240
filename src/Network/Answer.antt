-- ===== src/Network/Answer.antt =====
-- What the destination of a route request answers (`handle_rreq`, crates/dldsr-node/src/protocol.rs).
use dl_dsr_rs.Base.{
  ℕ, ◌<◌, ◌≡◌, sym, ap, ◌∙◌, true, false, List, [], ◌∷◌, ◌++◌, some, nat_eq, nat_beq, arith,
}
use mathlib.Core.List.{append_assoc}
use dl_dsr_rs.Core.Socket.{SocketAddr}
use dl_dsr_rs.Core.Packet.{Rreq, rrep}
use dl_dsr_rs.Core.Seen.{mark_if_new}
use dl_dsr_rs.Node.State.{Clock, ProtocolState}
use dl_dsr_rs.Node.Lookup.{is_logical_neighbor, endpoint, previous_in_trace}
use dl_dsr_rs.Node.Rreq.{push_hop, handle_rreq}
use dl_dsr_rs.Node.Flood.{handle_rreq-answers}
use dl_dsr_rs.Network.Paths.{IsSimple}
use dl_dsr_rs.Network.ReplyRoute.{only_reply}
use dl_dsr_rs.Network.Hops.{
  push_hop-snoc, suffix-IsSimple, previous-snoc, HopLabel, HopLabel-LabelStep,
}

-- The path of a request once `me`, which is not at its end, is on it.
pub push_hop-end :
    (path xs : List ℕ) (a me : ℕ)
    → path ≡ xs ++ (a ∷ [])
    → nat_beq a me ≡ false
    → push_hop me path ≡ path ++ (me ∷ [])
push_hop-end path xs a me e apart =
    rw e (push_hop-snoc xs a me apart ∙ sym (append_assoc xs (a ∷ []) (me ∷ [])))

-- Let a request for a node come from its neighbour, with hops left, be new and, in the label
-- mode, find the label that the neighbour gave the node; let both its paths end at that
-- neighbour, its trace with the node added be without repetition, and the neighbour have an
-- address. Then the node sends exactly one reply, to the neighbour, for the source, the
-- destination, the number and the time of the request, with the node added to both paths and the
-- label to the label path; and it emits no event.
pub handle_rreq-replies :
    (s : ProtocolState) (r : Rreq) (clock : Clock) (ls path trace : List ℕ) (a : SocketAddr)
    → s.config.node_id ≡ r.dst_node_id
    → is_logical_neighbor s.config r.previous_hop ≡ true
    → r.hop_count < s.config.max_rreq_hops
    → (mark_if_new s.seen_requests r.src_node_id r.request_id
        (clock 0)
        s.config.seen_request_ttl_ms
        s.config.seen_request_max_entries).1
      ≡ true
    → HopLabel s r.previous_hop ls
    → r.dsr_path ≡ path ++ (r.previous_hop ∷ [])
    → r.trace_path ≡ trace ++ (r.previous_hop ∷ [])
    → IsSimple (trace ++ (r.previous_hop ∷ s.config.node_id ∷ []))
    → endpoint s.config r.previous_hop ≡ some a
    → (handle_rreq s r clock).1 ≡ record {
      outbound =
          record {
            packet = rrep (record {
              src_node_id = r.src_node_id;
              dst_node_id = r.dst_node_id;
              request_id = r.request_id;
              dsr_path = r.dsr_path ++ (r.dst_node_id ∷ []);
              dldsr_label_path = r.dldsr_label_path ++ ls;
              trace_path = r.trace_path ++ (r.dst_node_id ∷ []);
              created_at_millis = r.created_at_millis;
            });
            dst = a;
          }
          ∷ [];
      events = [];
    }
handle_rreq-replies s r clock ls path trace a mine near hops is_new label dsr_path trace_path simple
      known =
    let prev = r.previous_hop in
    let me = s.config.node_id in
    let apart : nat_beq prev me ≡ false =
      let once = (suffix-IsSimple trace (prev ∷ me ∷ []) simple).0 in ground arith in
    let whole : push_hop me r.trace_path ≡ trace ++ (prev ∷ me ∷ []) =
      ap (push_hop me) trace_path ∙ push_hop-snoc trace prev me apart in
    let before_me : previous_in_trace (push_hop me r.trace_path) me ≡ some prev =
      ap (λ y. previous_in_trace y me) whole ∙ previous-snoc trace prev me simple in
    let sent =
      handle_rreq-answers s r clock (r.dldsr_label_path ++ ls) near hops is_new
        (HopLabel-LabelStep s r ls label) prev a (ground (arith, mine)) before_me known in
    let on_dsr =
      push_hop-end r.dsr_path path prev me dsr_path apart ∙ ap (λ y. r.dsr_path ++ (y ∷ [])) mine in
    let on_trace =
      push_hop-end r.trace_path trace prev me trace_path apart
      ∙ ap (λ y. r.trace_path ++ (y ∷ [])) mine in
    sent ∙ (λ i.
      only_reply
        (record {
          src_node_id = r.src_node_id;
          dst_node_id = r.dst_node_id;
          request_id = r.request_id;
          dsr_path = on_dsr i;
          dldsr_label_path = r.dldsr_label_path ++ ls;
          trace_path = on_trace i;
          created_at_millis = r.created_at_millis;
        })
        a)

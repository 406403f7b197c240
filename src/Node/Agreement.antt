-- ===== src/Node/Agreement.antt =====
-- What two neighbours know of each other's labels: after the hellos, the label that one has
-- received leads the other to it; and no later round takes a label from its node.
use dl_dsr_rs.Base.{ℕ, ◌≡◌, ◌∙◌, true, [], ◌∷◌, some, nat_eq, ok, arith}
use dl_dsr_rs.HashMap.Laws.{get-insert}
use dl_dsr_rs.Core.Socket.{SocketAddr}
use dl_dsr_rs.Core.Packet.{Hello, HelloReply, hello_reply}
use dl_dsr_rs.Core.Tables.{
  NeighborEntry, LabelEntry, LabelTable, neighbor_by_label, assign_or_reuse_label,
  update_from_hello_reply, label_assigned_by_neighbor,
}
use dl_dsr_rs.Core.Tables.Assign.{neighbor_by_label-assign}
use dl_dsr_rs.Node.State.{Clock, ProtocolState}
use dl_dsr_rs.Node.Lookup.{is_logical_neighbor}
use dl_dsr_rs.Node.Hello.{handle_hello, handle_hello_reply}
use dl_dsr_rs.Node.Tabled.{HasLabels}

label-update :
    (t : LabelTable) (n l now : ℕ)
    → label_assigned_by_neighbor (update_from_hello_reply t n l now) n ≡ some l
unfolding label_assigned_by_neighbor update_from_hello_reply
label-update t n l now =
    let e : LabelEntry = record {
      neighbor_node_id = n;
      label_assigned_by_neighbor_to_me = l;
      last_seen_millis = now;
    } in
    ground (arith, get-insert n n e t.entries)

-- Let a node whose table gives each neighbour its own label handle a hello of a neighbour, and
-- let the table have the label `l` for it. Then the node answers with one reply, to the sender of
-- the hello; once the neighbour, which knows the node as a neighbour, has handled the reply, it
-- holds `l` for the node; and at the node `l` leads to that neighbour, at the address of the
-- hello.
pub hello_agreement :
    (s t : ProtocolState) (h : Hello) (a : SocketAddr) (clock : Clock) (l : ℕ)
    → HasLabels s
    → is_logical_neighbor s.config h.src_node_id ≡ true
    → is_logical_neighbor t.config s.config.node_id ≡ true
    → h.src_node_id ≡ t.config.node_id
    → (assign_or_reuse_label s.neighbors h.src_node_id a (clock 0)).1 ≡ ok l
    → (r : HelloReply) × (e : NeighborEntry) × ((handle_hello s h a clock).1.outbound
        ≡ record { packet = hello_reply r; dst = a } ∷ [])
      × (label_assigned_by_neighbor (handle_hello_reply t r).0.labels s.config.node_id ≡ some l)
      × (neighbor_by_label (handle_hello s h a clock).0.neighbors l ≡ some e)
      × (e.node_id ≡ t.config.node_id)
      × (e.endpoint ≡ a)
unfolding handle_hello handle_hello_reply
hello_agreement s t h a clock l labels n back id given =
    let (e, found, is_node, at, _, _) =
      neighbor_by_label-assign s.neighbors h.src_node_id a (clock 0) l labels.own given in
    let r : HelloReply = record {
      src_node_id = s.config.node_id;
      dst_node_id = h.src_node_id;
      assigned_label = l;
      update_flag = true;
      timestamp_millis = clock 1;
    } in
    (
      r,
      e,
      ground (arith, n, given),
      ground (arith, back, id, label-update t.labels s.config.node_id l (clock 1)),
      ground (arith, n, given, found),
      is_node ∙ id,
      at,
    )

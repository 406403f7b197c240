-- ===== src/Node/Stable.antt =====
-- No round of the daemon takes a label from its node.
use dl_dsr_rs.Base.{
  ℕ, ◌≡◌, refl, sym, subst, ◌∙◌, Bool, inl, inr, Bool-cases, Result-cases, List, [], ◌∷◌, none,
  some, nat_eq, nat_beq, arith, suc, length,
}
use dl_dsr_rs.HashMap.{get}
use dl_dsr_rs.Core.Socket.{SocketAddr}
use dl_dsr_rs.Core.Packet.{
  Hello, Packet, hello, hello_reply, rreq, rrep, data_packet, ack, error_packet, Codec, decode,
}
use dl_dsr_rs.Core.Tables.{NeighborEntry, NeighborTable, neighbor_by_label, assign_or_reuse_label}
use dl_dsr_rs.Core.Tables.Labels.{HasOwnLabels, neighbor_by_label_iff}
use dl_dsr_rs.Core.Tables.Assign.{assign-HasOwnLabels, get-assign, get-assign_ne, assign_reuses}
use dl_dsr_rs.Node.State.{
  Clock, discover_and_send, OutboundPacket, ProtocolState, record_rx_bytes, record_tx_packet,
}
use dl_dsr_rs.Node.Lookup.{is_logical_neighbor}
use dl_dsr_rs.Node.Hello.{handle_hello}
use dl_dsr_rs.Node.Handle.{handle_packet, handle_command}
use dl_dsr_rs.Node.Daemon.{
  Input, hello_tick, protocol_tick, metrics_tick, control, received, receive_failed, command,
  receive, handle_input, handle_control_request, apply_outbound, daemon_step,
}
use dl_dsr_rs.Node.Frame.{
  handle_rreq-Frame, handle_rrep-Frame, handle_data-Quiet, discover_and_send_data-Frame,
  handle_tick-Frame,
}
use dl_dsr_rs.Node.Tabled.{HasLabels}
use dl_dsr_rs.Node.Reach.{handle_hello_reply-same}

-- What a label means in one table, it means in the other: the same node.
abbrev pub KeepsLabels : NeighborTable → NeighborTable → Type 0
KeepsLabels t u =
    (l : ℕ) (e : NeighborEntry)
    → neighbor_by_label t l ≡ some e
    → (f : NeighborEntry) × (neighbor_by_label u l ≡ some f) × (f.node_id ≡ e.node_id)

assign-KeepsLabels :
    (t : NeighborTable) (n : ℕ) (a : SocketAddr) (now : ℕ)
    → HasOwnLabels t.entries
    → KeepsLabels t (assign_or_reuse_label t n a now).0
assign-KeepsLabels t n a now h l e found =
    let (g, le) = (neighbor_by_label_iff t l e h).0 found in
    let own = assign-HasOwnLabels t n a now h in
    elim (Bool-cases (nat_beq e.node_id n)) [
      | inr apart ↦
          let g' = get-assign_ne t n a now e.node_id (λ q. ground arith) ∙ g in
          (e, (neighbor_by_label_iff _ l e own).1 (g', le), refl)
      | inl same ↦
          let at : e.node_id ≡ n = ground arith in
          let given = assign_reuses t n a now e (subst (λ k. get k t.entries ≡ some e) at g) in
          let (f, gf, lf, nf, _) =
            get-assign t n a now e.label_assigned_by_me_to_neighbor h given in
          (
            f,
            (neighbor_by_label_iff _ l f own).1 (
              subst (λ k. get k (assign_or_reuse_label t n a now).0.entries ≡ some f) (sym nf) gf,
              lf ∙ le,
            ),
            nf ∙ sym at,
          )
    ]

same-KeepsLabels : (t u : NeighborTable) → u ≡ t → KeepsLabels t u
same-KeepsLabels t u q l e found = (e, rw q found, refl)

handle_hello-KeepsLabels :
    (s : ProtocolState) (m : Hello) (a : SocketAddr) (clock : Clock)
    → HasLabels s
    → KeepsLabels s.neighbors (handle_hello s m a clock).0.neighbors
unfolding handle_hello
handle_hello-KeepsLabels s m a clock h =
    elim (Bool-cases (is_logical_neighbor s.config m.src_node_id)) [
      | inr n ↦ same-KeepsLabels _ _ (rw (n, handle_hello))
      | inl n ↦
          elim (Result-cases (assign_or_reuse_label s.neighbors m.src_node_id a (clock 0)).1) [
            | inr (e, r) ↦ same-KeepsLabels _ _ (rw (n, r, handle_hello))
            | inl (l, r) ↦
                rw (n, r, handle_hello)
                  (assign-KeepsLabels s.neighbors m.src_node_id a (clock 0) h.own)
          ]
    ]

handle_packet-KeepsLabels :
    (s : ProtocolState) (p : Packet) (a : SocketAddr) (clock : Clock)
    → HasLabels s
    → KeepsLabels s.neighbors (handle_packet s p a clock).0.neighbors
unfolding handle_packet
handle_packet-KeepsLabels s (hello m) a clock h = handle_hello-KeepsLabels s m a clock h
handle_packet-KeepsLabels s (hello_reply m) a clock h =
    same-KeepsLabels _ _ (handle_hello_reply-same s m).1
handle_packet-KeepsLabels s (rreq r) a clock h =
    same-KeepsLabels _ _ (handle_rreq-Frame s r clock).0.neighbors
handle_packet-KeepsLabels s (rrep r) a clock h =
    same-KeepsLabels _ _ (handle_rrep-Frame s a r clock).neighbors
handle_packet-KeepsLabels s (data_packet p) a clock h =
    same-KeepsLabels _ _ (handle_data-Quiet s a p clock).0.neighbors
handle_packet-KeepsLabels s (ack _) a clock h = same-KeepsLabels _ _ refl
handle_packet-KeepsLabels s (error_packet _) a clock h = same-KeepsLabels _ _ refl

module _ (c : Codec) where
  receive-KeepsLabels :
      (s : ProtocolState) (bytes : List ℕ) (a : SocketAddr) (clock : Clock)
      → HasLabels s
      → KeepsLabels s.neighbors (receive c s bytes a clock).0.neighbors
  unfolding receive record_rx_bytes
  receive-KeepsLabels s bytes a clock h = elim (Result-cases (decode c bytes)) [
    | inr (e, d) ↦ rw (d, receive) (same-KeepsLabels _ _ refl)
    | inl (p, d) ↦
        rw (d, receive)
          (handle_packet-KeepsLabels (record_rx_bytes s (length bytes)) p a clock
            (record { own = h.own; logical = h.logical }))
  ]

  handle_input-KeepsLabels :
      (s : ProtocolState) (i : Input) (clock : Clock)
      → HasLabels s
      → KeepsLabels s.neighbors (handle_input c s i clock).0.neighbors
  unfolding handle_input handle_control_request handle_command
  handle_input-KeepsLabels s hello_tick clock h = same-KeepsLabels _ _ refl
  handle_input-KeepsLabels s (protocol_tick now) clock h =
      same-KeepsLabels _ _ (handle_tick-Frame s now clock).neighbors
  handle_input-KeepsLabels s metrics_tick clock h = same-KeepsLabels _ _ refl
  handle_input-KeepsLabels s (control none) clock h = same-KeepsLabels _ _ refl
  handle_input-KeepsLabels s (control (some r)) clock h =
      same-KeepsLabels _ _ (discover_and_send_data-Frame s r.dst r.payload clock).neighbors
  handle_input-KeepsLabels s (received bytes a) clock h = receive-KeepsLabels s bytes a clock h
  handle_input-KeepsLabels s receive_failed clock h = same-KeepsLabels _ _ refl
  handle_input-KeepsLabels s (command (discover_and_send dst payload)) clock h =
      same-KeepsLabels _ _ (discover_and_send_data-Frame s dst payload clock).neighbors

  apply_outbound-neighbors :
      (accepted : ℕ → Bool) (os : List OutboundPacket) (s : ProtocolState)
      → (apply_outbound c accepted os s).neighbors ≡ s.neighbors
  unfolding apply_outbound record_tx_packet
  apply_outbound-neighbors accepted [] s = refl
  apply_outbound-neighbors accepted (o ∷ os) s =
      apply_outbound-neighbors (λ i. accepted (suc i)) os _ ∙ ground arith

  daemon_step-KeepsLabels :
      (accepted : ℕ → Bool) (s : ProtocolState) (i : Input) (clock : Clock)
      → HasLabels s
      → KeepsLabels s.neighbors (daemon_step c accepted s i clock).0.neighbors
  unfolding daemon_step
  daemon_step-KeepsLabels accepted s i clock h =
      rw
        (apply_outbound-neighbors accepted (handle_input c s i clock).1.outbound
          (handle_input c s i clock).0)
        (handle_input-KeepsLabels s i clock h)

  -- In a state that gives each neighbour its own label, a label that leads to a node leads to the
  -- same node after any round of the daemon.
  pub neighbor_by_label-daemon_step :
      (accepted : ℕ → Bool) (s : ProtocolState) (i : Input) (clock : Clock) (l : ℕ)
      (e : NeighborEntry)
      → HasLabels s
      → neighbor_by_label s.neighbors l ≡ some e
      → (f : NeighborEntry) × (neighbor_by_label (daemon_step c accepted s i clock).0.neighbors l
          ≡ some f)
        × (f.node_id ≡ e.node_id)
  neighbor_by_label-daemon_step accepted s i clock l e h found =
      daemon_step-KeepsLabels accepted s i clock h l e found

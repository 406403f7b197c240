-- ===== src/Network/System/Rounds.antt =====
-- A round of a daemon that knows the truth: what it learns and sends is true.
use dl_dsr_rs.Base.{
  ℕ, suc, ◌≡◌, refl, ap, ◌∙◌, Bool, false, inl, inr, Option-cases, Result-cases, List, [], ◌∷◌,
  none, some, ok, All-append, length, arith,
}
use dl_dsr_rs.Core.Socket.{SocketAddr}
use dl_dsr_rs.Core.Packet.{dl_dsr, Packet, Codec, encode, decode}
use dl_dsr_rs.Core.Packet.Encoding.{decode-encode}
use dl_dsr_rs.Core.Tables.{NeighborEntry, neighbor_by_label}
use dl_dsr_rs.Core.Topology.{NodeConfig}
use dl_dsr_rs.Node.State.{
  Clock, later, discover_and_send, OutboundPacket, ProtocolActions, no_actions, ProtocolState,
  record_rx_bytes, record_tx_packet,
}
use dl_dsr_rs.Node.Lookup.{is_logical_neighbor, endpoint}
use dl_dsr_rs.Node.Hello.{handle_hello}
use dl_dsr_rs.Node.Handle.{handle_packet, handle_command}
use dl_dsr_rs.Node.Daemon.{
  Input, hello_tick, protocol_tick, metrics_tick, control, received, receive_failed, command,
  hello_loop, send_hellos, receive, handle_input, handle_control_request, apply_outbound,
  daemon_step,
}
use dl_dsr_rs.Node.Frame.{
  Quiet, Quiet-refl, Quiet-trans, handle_rreq-Frame, handle_rrep-Frame, handle_data-Quiet,
  discover_and_send_data-Frame, handle_tick-Frame,
}
use dl_dsr_rs.Node.Tabled.{HasLabels}
use dl_dsr_rs.Node.Reach.{record_rx_bytes-Quiet, handle_hello_reply-same}
use dl_dsr_rs.Network.Truth.{Leads, IsTruePacket, AreTrue, Knows}
use dl_dsr_rs.Network.Truth.Tables.{same-Knows}
use dl_dsr_rs.Network.Truth.Keeps.{
  handle_packet_true, handle_tick_true, discover_and_send_data_true,
}

handle_hello-config :
    (s : ProtocolState) (m : _) (a : SocketAddr) (clock : Clock)
    → (handle_hello s m a clock).0.config ≡ s.config
unfolding handle_hello
handle_hello-config s m a clock = ground arith

pub handle_packet-config :
    (s : ProtocolState) (p : Packet) (a : SocketAddr) (clock : Clock)
    → (handle_packet s p a clock).0.config ≡ s.config
unfolding handle_packet
handle_packet-config s (Packet.hello m) a clock = handle_hello-config s m a clock
handle_packet-config s (Packet.hello_reply m) a clock = (handle_hello_reply-same s m).0
handle_packet-config s (Packet.rreq q) a clock = (handle_rreq-Frame s q clock).0.config
handle_packet-config s (Packet.rrep r) a clock = (handle_rrep-Frame s a r clock).config
handle_packet-config s (Packet.data_packet p) a clock = (handle_data-Quiet s a p clock).0.config
handle_packet-config s (Packet.ack _) a clock = refl
handle_packet-config s (Packet.error_packet _) a clock = refl

module _ (c : Codec) where
  pub apply_outbound-Quiet :
      (accepted : ℕ → Bool) (os : List OutboundPacket) (s : ProtocolState)
      → Quiet s (apply_outbound c accepted os s)
  unfolding apply_outbound record_tx_packet
  apply_outbound-Quiet accepted [] s = Quiet-refl s
  apply_outbound-Quiet accepted (o ∷ os) s =
      Quiet-trans s _ _ (ground arith) (apply_outbound-Quiet (λ i. accepted (suc i)) os _)

  handle_input-config :
      (s : ProtocolState) (i : Input) (clock : Clock)
      → (handle_input c s i clock).0.config ≡ s.config
  unfolding handle_input handle_control_request handle_command receive record_rx_bytes
  handle_input-config s hello_tick clock = refl
  handle_input-config s (protocol_tick now) clock = (handle_tick-Frame s now clock).config
  handle_input-config s metrics_tick clock = refl
  handle_input-config s (control none) clock = refl
  handle_input-config s (control (some r)) clock =
      (discover_and_send_data-Frame s r.dst r.payload clock).config
  handle_input-config s (received bytes a) clock = elim (Result-cases (decode c bytes)) [
    | inr (e, d) ↦ rw (d, receive) refl
    | inl (p, d) ↦
        rw (d, receive) (handle_packet-config (record_rx_bytes s (length bytes)) p a clock)
  ]
  handle_input-config s receive_failed clock = refl
  handle_input-config s (command (discover_and_send dst payload)) clock =
      (discover_and_send_data-Frame s dst payload clock).config

  pub daemon_step-config :
      (accepted : ℕ → Bool) (s : ProtocolState) (i : Input) (clock : Clock)
      → (daemon_step c accepted s i clock).0.config ≡ s.config
  unfolding daemon_step
  daemon_step-config accepted s i clock =
      (apply_outbound-Quiet accepted _ _).0.config ∙ handle_input-config s i clock

module _ (leads : Leads) (addr : ℕ → SocketAddr) where
  hello_loop-AreTrue :
      (k : NodeConfig) (ns : List ℕ) (clock : Clock) (actions : ProtocolActions)
      → AreTrue leads addr (addr k.node_id) actions.outbound
      → AreTrue leads addr (addr k.node_id) (hello_loop k ns clock actions).outbound
  unfolding hello_loop
  hello_loop-AreTrue k [] clock actions h = h
  hello_loop-AreTrue k (n ∷ ns) clock actions h = elim (Option-cases (endpoint k n)) [
    | inl e ↦ rw (e, hello_loop) (hello_loop-AreTrue k ns clock actions h)
    | inr (a, e) ↦
        rw (e, hello_loop)
          (hello_loop-AreTrue k ns (later clock) _ (
            All-append (λ o. IsTruePacket leads addr (addr k.node_id) o.packet) actions.outbound _ h
              (refl, tt)))
  ]

  -- The packets that a round may be fed: a datagram carries a true packet.
  abbrev pub Feeds : Codec → Input → Type 0
  Feeds c (received bytes a) = (p : Packet) × (encode c p ≡ ok bytes) × IsTruePacket leads addr a p
  Feeds c _ = Unit {0}

  module _ (c : Codec) (s : ProtocolState) (clock : Clock) (mode : s.config.protocol_mode ≡ dl_dsr)
      (alone : is_logical_neighbor s.config s.config.node_id ≡ false) (own : HasLabels s)
      (h : Knows leads addr s) where
    handle_input_true :
        (i : Input)
        → Feeds c i
        → ((l : ℕ) (e : NeighborEntry)
            → neighbor_by_label (handle_input c s i clock).0.neighbors l ≡ some e
            → leads s.config.node_id l e.node_id)
        → Knows leads addr (handle_input c s i clock).0
          × AreTrue leads addr (addr s.config.node_id) (handle_input c s i clock).1.outbound
    unfolding handle_input handle_control_request handle_command receive send_hellos record_rx_bytes
    handle_input_true hello_tick fed meant = (h, hello_loop-AreTrue s.config _ clock no_actions tt)
    handle_input_true (protocol_tick now) fed meant = handle_tick_true leads addr s now _ clock h
    handle_input_true metrics_tick fed meant = (h, tt)
    handle_input_true (control none) fed meant = (h, tt)
    handle_input_true (control (some r)) fed meant =
        discover_and_send_data_true leads addr s r.dst r.payload _ clock h
    handle_input_true (received bytes a) (p, e, t) meant =
        let d = (decode-encode c p bytes e).0 in
        let counted = record_rx_bytes s (length bytes) in
        let q = record_rx_bytes-Quiet s (length bytes) in
        rw (d, receive)
          (handle_packet_true leads addr counted p a (addr s.config.node_id) clock mode alone
            (record { own = own.own; logical = own.logical })
            (same-Knows leads addr s counted q.0 q.2.routes h) t
            (λ l entry found. meant l entry (rw (d, receive) found)))
    handle_input_true receive_failed fed meant = (h, tt)
    handle_input_true (command (discover_and_send dst payload)) fed meant =
        discover_and_send_data_true leads addr s dst payload _ clock h

    -- The whole round, the sending included.
    pub daemon_step_true :
        (accepted : ℕ → Bool) (i : Input)
        → Feeds c i
        → ((l : ℕ) (e : NeighborEntry)
            → neighbor_by_label (daemon_step c accepted s i clock).0.neighbors l ≡ some e
            → leads s.config.node_id l e.node_id)
        → Knows leads addr (daemon_step c accepted s i clock).0
          × AreTrue leads addr (addr s.config.node_id) (daemon_step c accepted s i clock).1.outbound
    unfolding daemon_step
    daemon_step_true accepted i fed meant =
        let (t, actions) = handle_input c s i clock in
        let q = apply_outbound-Quiet c accepted actions.outbound t in
        let same = q.0.neighbors in
        let (known, sent) =
          handle_input_true i fed
            (λ l e found. meant l e (ap (λ n. neighbor_by_label n l) same ∙ found)) in
        (same-Knows leads addr t _ q.0 q.2.routes known, sent)

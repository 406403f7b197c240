-- ===== src/Network/System/Provenance.antt =====
-- No datagram carries a payload that its source was not asked to send.
use dl_dsr_rs.Base.{
  ℕ, ◌≡◌, refl, sym, ap, ◌∙◌, subst, Bool, inl, inr, ◌⊎◌, Bool-cases, List, [], ◌∷◌, some, none, ok,
  length, All, All-append, All-map, All-get_elem?, get_elem?, nat_eq, nat_beq, arith,
}
use dl_dsr_rs.Core.Socket.{SocketAddr}
use dl_dsr_rs.Core.Packet.{
  Packet, hello, hello_reply, rreq, rrep, data_packet, ack, error_packet, DataPacket, Codec, encode,
}
use dl_dsr_rs.Core.Packet.Encoding.{decode-encode}
use dl_dsr_rs.Core.Topology.{NodeConfig}
use dl_dsr_rs.Node.State.{
  Clock, discover_and_send, OutboundPacket, ProtocolActions, no_actions, ProtocolState, new,
  record_rx_bytes,
}
use dl_dsr_rs.Node.Lookup.{endpoint}
use dl_dsr_rs.Node.Handle.{handle_command}
use dl_dsr_rs.Node.Daemon.{
  Input, hello_tick, protocol_tick, metrics_tick, control, received, receive_failed, command,
  hello_loop, send_hellos, receive, handle_input, handle_control_request, daemon_step,
}
use dl_dsr_rs.Network.Asked.{
  Asks, IsAsked, AreAsked, Waits, Owes, handle_tick-Owes, discover_and_send_data-Owes,
}
use dl_dsr_rs.Network.Asked.Handles.{handle_packet-Owes}
use dl_dsr_rs.Network.System.{Datagram, System, datagrams, act, Arises, Step, Reach}
use dl_dsr_rs.Network.System.Rounds.{apply_outbound-Quiet, daemon_step-config}
use dl_dsr_rs.Base.{Option-cases}
use dl_dsr_rs.Node.State.{later}

-- What an input asks of the node `n`.
abbrev pub asked_by : ℕ → Input → Asks
asked_by n (command (discover_and_send d p)) a dst payload = (a ≡ n) × (dst ≡ d) × (payload ≡ p)
asked_by n (control (some r)) a dst payload = (a ≡ n) × (dst ≡ r.dst) × (payload ≡ r.payload)
asked_by n (control none) a dst payload = ⊥
asked_by n hello_tick a dst payload = ⊥
asked_by n (protocol_tick _) a dst payload = ⊥
asked_by n metrics_tick a dst payload = ⊥
asked_by n (received _ _) a dst payload = ⊥
asked_by n receive_failed a dst payload = ⊥

module _ (asks : Asks) where
  hello_loop-AreAsked :
      (k : NodeConfig) (ns : List ℕ) (clock : Clock) (actions : ProtocolActions)
      → AreAsked asks actions.outbound
      → AreAsked asks (hello_loop k ns clock actions).outbound
  unfolding hello_loop
  hello_loop-AreAsked k [] clock actions h = h
  hello_loop-AreAsked k (n ∷ ns) clock actions h = elim (Option-cases (endpoint k n)) [
    | inl e ↦ rw (e, hello_loop) (hello_loop-AreAsked k ns clock actions h)
    | inr (a, e) ↦
        rw (e, hello_loop)
          (hello_loop-AreAsked k ns (later clock) _
            (All-append (λ o. IsAsked asks o.packet) actions.outbound _ h (tt, tt)))
  ]

  -- The input carries what was asked for, or asks for it.
  abbrev Brings : Codec → ℕ → Input → Type 0
  Brings c n (received bytes a) = (p : Packet) × (encode c p ≡ ok bytes) × IsAsked asks p
  Brings c n (command (discover_and_send d p)) = asks n d p
  Brings c n (control (some r)) = asks n r.dst r.payload
  Brings c n _ = Unit {0}

  handle_input-Owes :
      (c : Codec) (s : ProtocolState) (i : Input) (clock : Clock)
      → Waits asks s.config.node_id s.pending_data
      → Brings c s.config.node_id i
      → Owes asks s.config.node_id (handle_input c s i clock)
  unfolding handle_input handle_control_request handle_command receive send_hellos record_rx_bytes
  handle_input-Owes c s hello_tick clock h k =
      (refl, h, hello_loop-AreAsked s.config _ clock no_actions tt)
  handle_input-Owes c s (protocol_tick now) clock h k = handle_tick-Owes asks s now clock h
  handle_input-Owes c s metrics_tick clock h k = (refl, h, tt)
  handle_input-Owes c s (control none) clock h k = (refl, h, tt)
  handle_input-Owes c s (control (some r)) clock h k =
      discover_and_send_data-Owes asks s r.dst r.payload clock h k
  handle_input-Owes c s (received bytes a) clock h (p, e, k) =
      let d = (decode-encode c p bytes e).0 in
      rw (d, receive) (handle_packet-Owes asks (record_rx_bytes s (length bytes)) p a clock h k)
  handle_input-Owes c s receive_failed clock h k = (refl, h, tt)
  handle_input-Owes c s (command (discover_and_send dst payload)) clock h k =
      discover_and_send_data-Owes asks s dst payload clock h k

-- What was asked once stays asked.
module _ (asks more : Asks) (weaken : (a d : ℕ) (p : List ℕ) → asks a d p → more a d p) where
  IsAsked-more : (p : Packet) → IsAsked asks p → IsAsked more p
  IsAsked-more (data_packet p) h = weaken _ _ _ h
  IsAsked-more (hello _) h = tt
  IsAsked-more (hello_reply _) h = tt
  IsAsked-more (rreq _) h = tt
  IsAsked-more (rrep _) h = tt
  IsAsked-more (ack _) h = tt
  IsAsked-more (error_packet _) h = tt

module _ (c : Codec) (conf : ℕ → NodeConfig) (addr : ℕ → SocketAddr)
    (id : (n : ℕ) → (conf n).node_id ≡ n) where
  -- What the nodes were asked on the way to a state.
  unfoldable pub Asked : {s : System} → Reach c conf addr s → Asks
  Asked Reach.start a d p = ⊥
  Asked (Reach.later r (Step.round n accepted i clock arises)) a d p =
      Asked r a d p ⊎ asked_by n i a d p

  -- What waits and what was sent was asked for.
  pub record IsOwed (asks : Asks) (s : System) : Type 0 where
    pub config : (n : ℕ) → (s.node n).config ≡ conf n
    pub waits : (n : ℕ) → Waits asks n (s.node n).pending_data
    pub sent : All (λ (d : Datagram). IsAsked asks d.packet) s.sent

  datagrams-AreAsked :
      (asks : Asks) (n : ℕ) (os : List OutboundPacket)
      → AreAsked asks os
      → All (λ (d : Datagram). IsAsked asks d.packet) (datagrams c conf addr n os)
  datagrams-AreAsked asks n [] h = tt
  datagrams-AreAsked asks n (o ∷ os) h = (h.0, datagrams-AreAsked asks n os h.1)

  IsOwed-more :
      (asks more : Asks) (s : System)
      → ((a d : ℕ) (p : List ℕ) → asks a d p → more a d p)
      → IsOwed asks s
      → IsOwed more s
  IsOwed-more asks more s weaken h = record {
    config = h.config;
    waits = λ n. All-map _ _ (s.node n).pending_data (λ w k. weaken _ _ _ k) (h.waits n);
    sent = All-map _ _ s.sent (λ d k. IsAsked-more asks more weaken d.packet k) h.sent;
  }

  brings :
      (asks : Asks) (s : System) (n : ℕ) (i : Input)
      → IsOwed asks s
      → ((a d : ℕ) (p : List ℕ) → asked_by n i a d p → asks a d p)
      → Arises c conf addr s n i
      → Brings asks c n i
  brings asks s n i h new_ Arises.hello_time = tt
  brings asks s n i h new_ (Arises.protocol_time now) = tt
  brings asks s n i h new_ Arises.metrics_time = tt
  brings asks s n i h new_ (Arises.controlled none) = tt
  brings asks s n i h new_ (Arises.controlled (some r)) = new_ n r.dst r.payload (refl, refl, refl)
  brings asks s n i h new_ Arises.failed = tt
  brings asks s n i h new_ (Arises.commanded (discover_and_send d p)) =
      new_ n d p (refl, refl, refl)
  brings asks s n i h new_ (Arises.arrived k d at to e) =
      (d.packet, e, All-get_elem? (λ (x : Datagram). IsAsked asks x.packet) s.sent k d h.sent at)

  act-IsOwed :
      (asks : Asks) (s : System) (n : ℕ) (accepted : ℕ → Bool) (i : Input) (clock : Clock)
      → IsOwed asks s
      → Brings asks c n i
      → IsOwed asks (act c conf addr s n accepted i clock)
  unfolding daemon_step
  act-IsOwed asks s n accepted i clock h k =
      let own : (s.node n).config.node_id ≡ n =
        ap (λ (x : NodeConfig). x.node_id) (h.config n) ∙ id n in
      let (_, waits, sent) =
        handle_input-Owes asks c (s.node n) i clock
          (subst (λ m. Waits asks m (s.node n).pending_data) (sym own) (h.waits n))
          (subst (λ m. Brings asks c m i) (sym own) k) in
      let (t, actions) = handle_input c (s.node n) i clock in
      let q = apply_outbound-Quiet c accepted actions.outbound t in
      let waiting = q.1.pending_data in
      record {
        config = λ m. elim (Bool-cases (nat_beq n m)) [
          | inr apart ↦ rw apart (h.config m)
          | inl same ↦
              let e : n ≡ m = ground arith in
              rw same (
                daemon_step-config c accepted (s.node n) i clock
                ∙ subst (λ x. (s.node n).config ≡ conf x) e (h.config n))
        ];
        waits = λ m. elim (Bool-cases (nat_beq n m)) [
          | inr apart ↦ rw apart (h.waits m)
          | inl same ↦
              let e : n ≡ m = ground arith in
              rw same (rw waiting (subst (λ x. Waits asks x t.pending_data) (own ∙ e) waits))
        ];
        sent = All-append _ s.sent _ h.sent (datagrams-AreAsked asks n actions.outbound sent);
      }

  Reach-IsOwed : {s : System} (r : Reach c conf addr s) → IsOwed (Asked r) s
  unfolding new Asked
  Reach-IsOwed Reach.start = record { config = λ n. refl; waits = λ n. tt; sent = tt }
  Reach-IsOwed (Reach.later {s} r (Step.round n accepted i clock arises)) =
      let asks = Asked (Reach.later r (Step.round n accepted i clock arises)) in
      let h = IsOwed-more (Asked r) asks s (λ a d p k. inl k) (Reach-IsOwed r) in
      act-IsOwed asks s n accepted i clock h (brings asks s n i h (λ a d p k. inr k) arises)

  -- Let each node have its own number. Then on any way to a state of the network, each data
  -- packet that was ever sent carries a payload that its source was asked, by a command or a
  -- control message on that way, to send to its destination.
  pub sent_was_asked :
      {s : System} (r : Reach c conf addr s) (i : ℕ) (d : Datagram) (p : DataPacket)
      → get_elem? s.sent i ≡ some d
      → d.packet ≡ data_packet p
      → Asked r p.src_node_id p.dst_node_id p.payload
  sent_was_asked {s} r i d p at is_data = subst (IsAsked (Asked r)) is_data (
      All-get_elem? (λ (x : Datagram). IsAsked (Asked r) x.packet) s.sent i d (Reach-IsOwed r).sent
        at)

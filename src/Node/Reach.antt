-- ===== src/Node/Reach.antt =====
-- The rounds of the daemon keep the invariants, so every state that a node reaches has them.
use dl_dsr_rs.Base.{
  ℕ, suc, ◌≡◌, List, [], ◌∷◌, Bool, inl, inr, some, none, arith, Result-cases, length,
}
use dl_dsr_rs.Core.Socket.{SocketAddr}
use dl_dsr_rs.Core.Packet.{
  Hello, HelloReply, Packet, hello, hello_reply, rreq, rrep, data_packet, ack, error_packet, Codec,
  decode,
}
use dl_dsr_rs.Core.Topology.{NodeConfig}
use dl_dsr_rs.Node.State.{
  Clock, ProtocolCommand, discover_and_send, OutboundPacket, ProtocolState, new, record_rx_bytes,
  record_tx_packet,
}
use dl_dsr_rs.Node.Hello.{handle_hello, handle_hello_reply}
use dl_dsr_rs.Node.Handle.{handle_packet, handle_command}
use dl_dsr_rs.Node.Daemon.{
  Input, hello_tick, protocol_tick, metrics_tick, control, received, receive_failed, command,
  receive, handle_input, handle_control_request, apply_outbound, daemon_step,
}
use dl_dsr_rs.Node.Frame.{
  Quiet, handle_rreq-Frame, handle_rrep-Frame, handle_data-Quiet, discover_and_send_data-Frame,
  handle_tick-Frame,
}
use dl_dsr_rs.Node.Queued.{
  IsQueued, SameQueue-IsQueued, discover_and_send_data-IsQueued, handle_tick-IsQueued,
  handle_rrep-IsQueued, handle_hello-IsQueued, handle_hello_reply-IsQueued,
}
use dl_dsr_rs.Node.Tabled.{
  HasLabels, IsBounded, Frame-HasLabels, handle_hello-HasLabels, SameMemory-IsBounded,
  handle_rreq-IsBounded, discover_and_send_data-IsBounded, handle_tick-IsBounded,
  handle_rrep-IsBounded,
}

-- The invariant of a node.
pub record IsValid (s : ProtocolState) : Type 0 where
  pub queued : IsQueued s
  pub labelled : HasLabels s
  pub bounded : IsBounded s

pub new-IsValid : (c : NodeConfig) → IsValid (new c)
unfolding new
new-IsValid c = record {
  queued = record { covered = tt; within = tt; distinct = tt };
  labelled = record { own = tt; logical = tt };
  bounded = record { distinct = tt; within = omega arith };
}

Quiet-IsValid : (s t : ProtocolState) → Quiet s t → IsValid s → IsValid t
Quiet-IsValid s t q v = record {
  queued = SameQueue-IsQueued s t q.0 q.1 v.queued;
  labelled = Frame-HasLabels s t q.0 v.labelled;
  bounded = SameMemory-IsBounded s t q.0 q.2 v.bounded;
}

handle_hello-IsBounded :
    (s : ProtocolState) (m : Hello) (a : SocketAddr) (clock : Clock)
    → IsBounded s
    → IsBounded (handle_hello s m a clock).0
unfolding handle_hello
handle_hello-IsBounded s m a clock h = ground arith

handle_hello_reply-IsBounded :
    (s : ProtocolState) (m : HelloReply) → IsBounded s → IsBounded (handle_hello_reply s m).0
unfolding handle_hello_reply
handle_hello_reply-IsBounded s m h = ground arith

pub handle_hello_reply-same :
    (s : ProtocolState) (m : HelloReply)
    → ((handle_hello_reply s m).0.config ≡ s.config)
      × ((handle_hello_reply s m).0.neighbors ≡ s.neighbors)
unfolding handle_hello_reply
handle_hello_reply-same s m = ground arith

handle_hello_reply-HasLabels :
    (s : ProtocolState) (m : HelloReply) → HasLabels s → HasLabels (handle_hello_reply s m).0
handle_hello_reply-HasLabels s m h =
    let (c, n) = handle_hello_reply-same s m in
    record { own = rw n h.own; logical = rw (c, n) h.logical }

pub record_rx_bytes-Quiet : (s : ProtocolState) (len : ℕ) → Quiet s (record_rx_bytes s len)
unfolding record_rx_bytes
record_rx_bytes-Quiet s len = ground arith

-- Every packet, from any sender, keeps the invariant.
pub handle_packet-IsValid :
    (s : ProtocolState) (p : Packet) (a : SocketAddr) (clock : Clock)
    → IsValid s
    → IsValid (handle_packet s p a clock).0
unfolding handle_packet
handle_packet-IsValid s (hello m) a clock v = record {
  queued = handle_hello-IsQueued s m a clock v.queued;
  labelled = handle_hello-HasLabels s m a clock v.labelled;
  bounded = handle_hello-IsBounded s m a clock v.bounded;
}
handle_packet-IsValid s (hello_reply m) a clock v = record {
  queued = handle_hello_reply-IsQueued s m v.queued;
  labelled = handle_hello_reply-HasLabels s m v.labelled;
  bounded = handle_hello_reply-IsBounded s m v.bounded;
}
handle_packet-IsValid s (rreq r) a clock v =
    let (f, q) = handle_rreq-Frame s r clock in
    record {
      queued = SameQueue-IsQueued s _ f q v.queued;
      labelled = Frame-HasLabels s _ f v.labelled;
      bounded = handle_rreq-IsBounded s r clock v.bounded;
    }
handle_packet-IsValid s (rrep r) a clock v = record {
  queued = handle_rrep-IsQueued s a r clock v.queued;
  labelled = Frame-HasLabels s _ (handle_rrep-Frame s a r clock) v.labelled;
  bounded = handle_rrep-IsBounded s a r clock v.bounded;
}
handle_packet-IsValid s (data_packet p) a clock v =
    Quiet-IsValid s _ (handle_data-Quiet s a p clock) v
handle_packet-IsValid s (ack _) a clock v = v
handle_packet-IsValid s (error_packet _) a clock v = v

pub handle_command-IsValid :
    (s : ProtocolState) (c : ProtocolCommand) (clock : Clock)
    → IsValid s
    → IsValid (handle_command s c clock).0
unfolding handle_command
handle_command-IsValid s (discover_and_send dst payload) clock v = record {
  queued = discover_and_send_data-IsQueued s dst payload clock v.queued;
  labelled = Frame-HasLabels s _ (discover_and_send_data-Frame s dst payload clock) v.labelled;
  bounded = discover_and_send_data-IsBounded s dst payload clock v.bounded;
}

module _ (c : Codec) where
  receive-IsValid :
      (s : ProtocolState) (bytes : List ℕ) (a : SocketAddr) (clock : Clock)
      → IsValid s
      → IsValid (receive c s bytes a clock).0
  unfolding receive
  receive-IsValid s bytes a clock v = elim (Result-cases (decode c bytes)) [
    | inr (e, d) ↦ rw (d, receive) v
    | inl (p, d) ↦
        rw (d, receive)
          (handle_packet-IsValid _ p a clock
            (Quiet-IsValid s _ (record_rx_bytes-Quiet s (length bytes)) v))
  ]

  handle_input-IsValid :
      (s : ProtocolState) (i : Input) (clock : Clock)
      → IsValid s
      → IsValid (handle_input c s i clock).0
  unfolding handle_input handle_control_request
  handle_input-IsValid s hello_tick clock v = v
  handle_input-IsValid s (protocol_tick now) clock v = record {
    queued = handle_tick-IsQueued s now clock v.queued;
    labelled = Frame-HasLabels s _ (handle_tick-Frame s now clock) v.labelled;
    bounded = handle_tick-IsBounded s now clock v.bounded;
  }
  handle_input-IsValid s metrics_tick clock v = v
  handle_input-IsValid s (control none) clock v = v
  handle_input-IsValid s (control (some request)) clock v = handle_command-IsValid s _ clock v
  handle_input-IsValid s (received bytes a) clock v = receive-IsValid s bytes a clock v
  handle_input-IsValid s receive_failed clock v = v
  handle_input-IsValid s (command request) clock v = handle_command-IsValid s request clock v

  apply_outbound-IsValid :
      (accepted : ℕ → Bool) (os : List OutboundPacket) (s : ProtocolState)
      → IsValid s
      → IsValid (apply_outbound c accepted os s)
  unfolding apply_outbound record_tx_packet
  apply_outbound-IsValid accepted [] s v = v
  apply_outbound-IsValid accepted (o ∷ os) s v =
      apply_outbound-IsValid (λ i. accepted (suc i)) os _ (Quiet-IsValid s _ (ground arith) v)

  -- One round of the daemon's loop keeps the invariant, whatever arrives and whatever the sockets do.
  pub daemon_step-IsValid :
      (accepted : ℕ → Bool) (s : ProtocolState) (i : Input) (clock : Clock)
      → IsValid s
      → IsValid (daemon_step c accepted s i clock).0
  unfolding daemon_step
  daemon_step-IsValid accepted s i clock v =
      apply_outbound-IsValid accepted _ _ (handle_input-IsValid s i clock v)

  -- The states that a node of configuration `conf` reaches.
  pub data Reach (conf : NodeConfig) : ProtocolState → Type 0 where
    start : Reach conf (new conf)
    round :
        {s : ProtocolState} (accepted : ℕ → Bool) (i : Input) (clock : Clock)
        → Reach conf s
        → Reach conf (daemon_step c accepted s i clock).0

  -- Every state that a node reaches, whatever its inputs and its sockets do, is valid: each
  -- payload that waits has a discovery; no destination has two discoveries, and none has more
  -- retries than configured; each known neighbour is one of the topology and has a label from 1
  -- to 255 that no other has; the table of requests has no key twice and no more entries than
  -- configured.
  pub Reach-IsValid : (conf : NodeConfig) {s : ProtocolState} → Reach conf s → IsValid s
  Reach-IsValid conf start = new-IsValid conf
  Reach-IsValid conf (round {s} accepted i clock r) =
      daemon_step-IsValid accepted s i clock (Reach-IsValid conf r)

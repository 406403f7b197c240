-- ===== src/Network/Asked/Handles.antt =====
-- A node that is handed a payload that was asked for passes it on or hands it over, as it is.
use dl_dsr_rs.Base.{
  ℕ, refl, inl, inr, Bool-cases, Option-cases, Result-cases, foldl_inv, All-append, nat_eq, nat_beq,
  arith,
}
use dl_dsr_rs.Core.Socket.{SocketAddr}
use dl_dsr_rs.Core.Packet.{
  Packet, hello, hello_reply, rreq, rrep, data_packet, ack, error_packet, Hello, HelloReply, Rreq,
  Rrep, DataPacket,
}
use dl_dsr_rs.Node.State.{Clock, later, ProtocolActions, no_actions, ProtocolState}
use dl_dsr_rs.Node.Lookup.{logical_neighbors, endpoint}
use dl_dsr_rs.Node.Origin.{drop_data}
use dl_dsr_rs.Node.Hello.{handle_hello, handle_hello_reply}
use dl_dsr_rs.Node.Rreq.{answer_rreq, forward_rreq, route_rreq, label_rreq, handle_rreq}
use dl_dsr_rs.Node.Rrep.{
  validate_rrep, route_of, cache_route, accept_rrep, forward_rrep, handle_rrep,
}
use dl_dsr_rs.Node.Data.{
  deliver_data, pass_on, forward_dsr, forward_dldsr, forward_data, handle_data,
}
use dl_dsr_rs.Node.Handle.{handle_packet}
use dl_dsr_rs.Node.Frame.{handle_rreq-Frame, handle_data-Quiet, forward_rrep-Quiet}
use dl_dsr_rs.Network.Asked.{Asks, IsAsked, AreAsked, Waits, Owes, flush_pending-Owes}

module _ (asks : Asks) where
  forward_rreq-AreAsked :
      (q : Rreq) (acc : ProtocolState × ProtocolActions) (m : ℕ)
      → AreAsked asks acc.1.outbound
      → AreAsked asks (forward_rreq q acc m).1.outbound
  unfolding forward_rreq
  forward_rreq-AreAsked q acc m h = elim (Bool-cases (nat_beq m q.previous_hop)) [
    | inl e ↦ rw (e, forward_rreq) h
    | inr e ↦ elim (Option-cases (endpoint acc.0.config m)) [
      | inl k ↦ rw (e, k, forward_rreq) h
      | inr (a, k) ↦
          rw (e, k, forward_rreq)
            (All-append (λ o. IsAsked asks o.packet) acc.1.outbound _ h (tt, tt))
    ]
  ]

  route_rreq-AreAsked : (s : ProtocolState) (q : Rreq) → AreAsked asks (route_rreq s q).1.outbound
  unfolding route_rreq answer_rreq
  route_rreq-AreAsked s q =
      let copies =
        foldl_inv (λ (x : ProtocolState × ProtocolActions). AreAsked asks x.1.outbound)
          (forward_rreq q) (s, no_actions) (logical_neighbors s.config)
          (λ acc m. forward_rreq-AreAsked q acc m) tt in
      ground (arith, copies)

  handle_rreq-AreAsked :
      (s : ProtocolState) (q : Rreq) (clock : Clock)
      → AreAsked asks (handle_rreq s q clock).1.outbound
  unfolding handle_rreq label_rreq
  handle_rreq-AreAsked s q clock = grind (arith, route_rreq-AreAsked)

  forward_rrep-AreAsked :
      (s : ProtocolState) (r : Rrep) → AreAsked asks (forward_rrep s r).1.outbound
  unfolding forward_rrep
  forward_rrep-AreAsked s r = ground arith

  handle_rrep-Owes :
      (s : ProtocolState) (a : SocketAddr) (r : Rrep) (clock : Clock)
      → Waits asks s.config.node_id s.pending_data
      → Owes asks s.config.node_id (handle_rrep s a r clock)
  unfolding handle_rrep accept_rrep
  handle_rrep-Owes s a r clock h = elim (Result-cases (validate_rrep s.config a r.trace_path)) [
    | inr (why, v) ↦ rw (v, handle_rrep) (refl, h, tt)
    | inl (_, v) ↦ elim (Bool-cases (nat_beq s.config.node_id r.src_node_id)) [
      | inl mine ↦
          let route = route_of s r (clock 0) in
          rw (v, mine, handle_rrep)
            (flush_pending-Owes asks (cache_route s r route) r.dst_node_id route (later clock) h)
      | inr other ↦
          let q = forward_rrep-Quiet s r in
          let same = q.0.config in
          let waiting = q.1.pending_data in
          rw (v, other, handle_rrep) (rw same refl, rw waiting h, forward_rrep-AreAsked s r)
    ]
  ]

  forward_data-AreAsked :
      (s : ProtocolState) (p : DataPacket)
      → asks p.src_node_id p.dst_node_id p.payload
      → AreAsked asks (forward_data s p).1.outbound
  unfolding forward_data forward_dsr forward_dldsr pass_on drop_data
  forward_data-AreAsked s p k = ground arith

  handle_data-AreAsked :
      (s : ProtocolState) (a : SocketAddr) (p : DataPacket) (clock : Clock)
      → asks p.src_node_id p.dst_node_id p.payload
      → AreAsked asks (handle_data s a p clock).1.outbound
  unfolding handle_data deliver_data drop_data
  handle_data-AreAsked s a p clock k = grind (arith, forward_data-AreAsked s p k)

  handle_hello-Owes :
      (s : ProtocolState) (m : Hello) (a : SocketAddr) (clock : Clock)
      → Waits asks s.config.node_id s.pending_data
      → Owes asks s.config.node_id (handle_hello s m a clock)
  unfolding handle_hello
  handle_hello-Owes s m a clock h = ground arith

  handle_hello_reply-Owes :
      (s : ProtocolState) (m : HelloReply)
      → Waits asks s.config.node_id s.pending_data
      → Owes asks s.config.node_id (handle_hello_reply s m)
  unfolding handle_hello_reply
  handle_hello_reply-Owes s m h = ground arith

  pub handle_packet-Owes :
      (s : ProtocolState) (p : Packet) (a : SocketAddr) (clock : Clock)
      → Waits asks s.config.node_id s.pending_data
      → IsAsked asks p
      → Owes asks s.config.node_id (handle_packet s p a clock)
  unfolding handle_packet
  handle_packet-Owes s (hello m) a clock h k = handle_hello-Owes s m a clock h
  handle_packet-Owes s (hello_reply m) a clock h k = handle_hello_reply-Owes s m h
  handle_packet-Owes s (rreq q) a clock h k =
      let (f, same) = handle_rreq-Frame s q clock in
      let config = f.config in
      let waiting = same.pending_data in
      (rw config refl, rw waiting h, handle_rreq-AreAsked s q clock)
  handle_packet-Owes s (rrep r) a clock h k = handle_rrep-Owes s a r clock h
  handle_packet-Owes s (data_packet p) a clock h k =
      let q = handle_data-Quiet s a p clock in
      let config = q.0.config in
      let waiting = q.1.pending_data in
      (rw config refl, rw waiting h, handle_data-AreAsked s a p clock k)
  handle_packet-Owes s (ack _) a clock h k = (refl, h, tt)
  handle_packet-Owes s (error_packet _) a clock h k = (refl, h, tt)

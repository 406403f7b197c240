-- ===== src/Network/Asked.antt =====
-- Where payloads come from, over a relation `asks`: `asks a d p` says that the node `a` was asked to
-- send `p` to `d`.
pub mod Handles
use dl_dsr_rs.Base.{
  add_u32, ℕ, ◌≡◌, refl, sym, subst, true, false, inl, inr, Bool-cases, Option-cases, Result-cases,
  List, [], ◌∷◌, ◌++◌, some, none, foldl_inv, All, All-append, All-filter, nat_eq, nat_beq, leb,
  arith,
}
use dl_dsr_rs.HashMap.{contains_key}
use dl_dsr_rs.Core.Socket.{SocketAddr}
use dl_dsr_rs.Core.Packet.{
  Packet, hello, hello_reply, rreq, rrep, data_packet, ack, error_packet, Hello, HelloReply, Rreq,
  Rrep, DataPacket,
}
use dl_dsr_rs.Core.Routes.{RouteEntry, shortest}
use dl_dsr_rs.Node.State.{
  Clock, later, PendingData, OutboundPacket, DiscoveryState, ProtocolActions, no_actions,
  ProtocolState,
}
use dl_dsr_rs.Node.Lookup.{logical_neighbors, endpoint}
use dl_dsr_rs.Node.Origin.{
  drop_data, lookup_packet, origin_data, flush_loop, flush_pending, drop_loop, drop_pending_for_dst,
}
use dl_dsr_rs.Node.Discovery.{
  first_rreq, send_to_neighbor, start_discovery, discover_and_send_data, fail_discovery,
  retry_discovery, retry_loop, retry_expired_discoveries, handle_tick,
}
use dl_dsr_rs.Node.Pending.{flush_loop-remaining, drop_loop-filter}
use dl_dsr_rs.Node.Frame.{origin_data-Quiet, flush_loop-Quiet}

abbrev pub Asks : Type 1
Asks = ℕ → ℕ → List ℕ → Type 0

module _ (asks : Asks) where
  -- The payload of a packet was asked for.
  abbrev pub IsAsked : Packet → Type 0
  IsAsked (data_packet p) = asks p.src_node_id p.dst_node_id p.payload
  IsAsked (hello _) = Unit {0}
  IsAsked (hello_reply _) = Unit
  IsAsked (rreq _) = Unit
  IsAsked (rrep _) = Unit
  IsAsked (ack _) = Unit
  IsAsked (error_packet _) = Unit

  abbrev pub AreAsked : List OutboundPacket → Type 0
  AreAsked = All (λ o. IsAsked o.packet)

  -- Each payload that waits at `n` was asked of it.
  abbrev pub Waits : ℕ → List PendingData → Type 0
  Waits n = All (λ w. asks n w.dst_node_id w.payload)

  -- What a node holds and sends was asked of it.
  abbrev pub Owes : ℕ → ProtocolState × ProtocolActions → Type 0
  Owes n (s, actions) = (s.config.node_id ≡ n) × Waits n s.pending_data × AreAsked actions.outbound

  send_to_neighbor-AreAsked :
      (s : ProtocolState) (q : Rreq) (actions : ProtocolActions) (n : ℕ)
      → AreAsked actions.outbound
      → AreAsked (send_to_neighbor s (rreq q) actions n).outbound
  unfolding send_to_neighbor
  send_to_neighbor-AreAsked s q actions n h = elim (Option-cases (endpoint s.config n)) [
    | inl e ↦ rw (e, send_to_neighbor) h
    | inr (a, e) ↦
        rw (e, send_to_neighbor) (All-append (λ o. IsAsked o.packet) actions.outbound _ h (tt, tt))
  ]

  pub start_discovery-Owes :
      (s : ProtocolState) (dst retries : ℕ) (clock : Clock)
      → Waits s.config.node_id s.pending_data
      → Owes s.config.node_id (start_discovery s dst retries clock)
  unfolding start_discovery
  start_discovery-Owes s dst retries clock h =
      let q = first_rreq s dst s.next_request_id (clock 0) in
      (
        refl,
        h,
        foldl_inv (λ (x : ProtocolActions). AreAsked x.outbound) (send_to_neighbor s (rreq q))
            no_actions (logical_neighbors s.config)
            (λ actions n. send_to_neighbor-AreAsked s q actions n) tt,
      )

  pub origin_data-AreAsked :
      (s : ProtocolState) (dst : ℕ) (payload : List ℕ) (route : RouteEntry) (clock : Clock)
      → asks s.config.node_id dst payload
      → AreAsked (origin_data s dst payload route clock).1.outbound
  unfolding origin_data lookup_packet drop_data
  origin_data-AreAsked s dst payload route clock h = ground arith

  flush_loop-AreAsked :
      (dst : ℕ) (route : RouteEntry) (queue : List PendingData) (clock : Clock) (s : ProtocolState)
      → Waits s.config.node_id queue
      → AreAsked (flush_loop dst route queue clock s).1
  unfolding flush_loop
  flush_loop-AreAsked dst route [] clock s h = tt
  flush_loop-AreAsked dst route (p ∷ queue) clock s h =
      elim (Bool-cases (nat_beq p.dst_node_id dst)) [
        | inr e ↦ rw (e, flush_loop) (flush_loop-AreAsked dst route queue clock s h.1)
        | inl e ↦
            let same = (origin_data-Quiet s dst p.payload route clock).0.config in
            let is_dst : p.dst_node_id ≡ dst = ground arith in
            rw (e, flush_loop)
              (All-append (λ o. IsAsked o.packet) _ _
                (origin_data-AreAsked s dst p.payload route clock
                  (subst (λ d. asks s.config.node_id d p.payload) is_dst h.0))
                (flush_loop-AreAsked dst route queue (later clock) _ (rw same h.1)))
      ]

  pub flush_pending-Owes :
      (s : ProtocolState) (dst : ℕ) (route : RouteEntry) (clock : Clock)
      → Waits s.config.node_id s.pending_data
      → let (t, outbound) = flush_pending s dst route clock in
        (t.config.node_id ≡ s.config.node_id)
        × Waits s.config.node_id t.pending_data
        × AreAsked outbound
  unfolding flush_pending
  flush_pending-Owes s dst route clock h =
      let q = flush_loop-Quiet dst route s.pending_data clock s in
      let same = q.0.config in
      (
        rw same refl,
        rw (flush_loop-remaining dst route s.pending_data clock s)
            (All-filter _ _ s.pending_data h),
        flush_loop-AreAsked dst route s.pending_data clock s h,
      )

  fail_discovery-outbound :
      (dst : ℕ) (d : DiscoveryState) (acc : ProtocolState × ProtocolActions)
      → (fail_discovery dst d acc).1.outbound ≡ acc.1.outbound
  unfolding fail_discovery
  fail_discovery-outbound dst d acc = ground arith

  retry_loop-Owes :
      (n : ℕ) (expired : List (ℕ × DiscoveryState)) (clock : Clock)
      (acc : ProtocolState × ProtocolActions)
      → Owes n acc
      → Owes n (retry_loop expired clock acc)
  unfolding retry_loop fail_discovery retry_discovery drop_pending_for_dst start_discovery
  retry_loop-Owes n [] clock acc h = h
  retry_loop-Owes n ((dst, d) ∷ expired) clock acc h =
      elim (Bool-cases (leb (acc.0).config.route_discovery_max_retries d.retries_done)) [
        | inl e ↦
            rw (e, retry_loop)
              (retry_loop-Owes n expired clock _ (
                h.0,
                rw ((drop_loop-filter dst acc.0.pending_data).1)
                    (All-filter _ _ acc.0.pending_data h.1),
                subst AreAsked (sym (fail_discovery-outbound dst d acc)) h.2,
              ))
        | inr e ↦
            let (id, waits, sent) =
              start_discovery-Owes acc.0 dst (add_u32 d.retries_done 1) clock
                (subst (λ m. Waits m acc.0.pending_data) (sym h.0) h.1) in
            rw (e, retry_loop)
              (retry_loop-Owes n expired (later clock) (retry_discovery dst d clock acc)
                (h.0, h.1, All-append (λ o. IsAsked o.packet) acc.1.outbound _ h.2 sent))
      ]

  pub handle_tick-Owes :
      (s : ProtocolState) (now : ℕ) (clock : Clock)
      → Waits s.config.node_id s.pending_data
      → Owes s.config.node_id (handle_tick s now clock)
  unfolding handle_tick retry_expired_discoveries
  handle_tick-Owes s now clock h = retry_loop-Owes s.config.node_id _ clock _ (refl, h, tt)

  pub discover_and_send_data-Owes :
      (s : ProtocolState) (dst : ℕ) (payload : List ℕ) (clock : Clock)
      → Waits s.config.node_id s.pending_data
      → asks s.config.node_id dst payload
      → Owes s.config.node_id (discover_and_send_data s dst payload clock)
  unfolding discover_and_send_data
  discover_and_send_data-Owes s dst payload clock h k =
      let queue =
        All-append (λ w. asks s.config.node_id w.dst_node_id w.payload) s.pending_data
          (record { dst_node_id = dst; payload = payload } ∷ []) h (k, tt) in
      elim (Option-cases (shortest s.routes dst (clock 0))) [
        | inr (route, e) ↦
            let q = origin_data-Quiet s dst payload route (later clock) in
            let same = q.0.config in
            let waiting = q.1.pending_data in
            rw (e, discover_and_send_data)
              (rw same refl, rw waiting h, origin_data-AreAsked s dst payload route (later clock) k)
        | inl e ↦ elim (Bool-cases (contains_key dst s.discoveries)) [
          | inl f ↦ rw (e, f, discover_and_send_data) (refl, queue, tt)
          | inr f ↦
              rw (e, f, discover_and_send_data) (start_discovery-Owes _ dst 0 (later clock) queue)
        ]
      ]

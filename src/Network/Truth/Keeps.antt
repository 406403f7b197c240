-- ===== src/Network/Truth/Keeps.antt =====
-- A node that knows the truth, and is told the truth, still knows it.
use dl_dsr_rs.Base.{
  ℕ, ◌≡◌, refl, subst, false, ◌&&◌, inl, inr, Bool-cases, Option-cases, Result-cases, List, [], ◌∷◌,
  some, nat_eq, nat_beq, leb, arith,
}
use dl_dsr_rs.HashMap.{contains_key}
use dl_dsr_rs.HashMap.Everywhere.{insert-All}
use dl_dsr_rs.Core.Socket.{SocketAddr}
use dl_dsr_rs.Core.Packet.{
  dl_dsr, Hello, HelloReply, Packet, hello, hello_reply, rreq, rrep, Rrep, data_packet, ack,
  error_packet,
}
use dl_dsr_rs.Core.Tables.{
  NeighborEntry, neighbor_by_label, assign_or_reuse_label, update_from_hello_reply,
}
use dl_dsr_rs.Core.Tables.Assign.{neighbor_by_label-assign}
use dl_dsr_rs.Core.Routes.{shortest}
use dl_dsr_rs.Node.State.{Clock, later, DiscoveryState, ProtocolActions, ProtocolState}
use dl_dsr_rs.Node.Lookup.{is_logical_neighbor}
use dl_dsr_rs.Node.Origin.{flush_pending, drop_pending_for_dst}
use dl_dsr_rs.Node.Discovery.{
  start_discovery, discover_and_send_data, retry_discovery, fail_discovery, retry_loop,
  retry_expired_discoveries, handle_tick,
}
use dl_dsr_rs.Node.Hello.{handle_hello, handle_hello_reply}
use dl_dsr_rs.Node.Rrep.{validate_rrep, route_of, cache_route, accept_rrep, handle_rrep}
use dl_dsr_rs.Node.Handle.{handle_packet}
use dl_dsr_rs.Node.Frame.{
  handle_rreq-Frame, handle_rreq-seen, handle_data-Quiet, forward_rrep-Quiet, flush_loop-Quiet,
  origin_data-Quiet, handle_tick-Frame, discover_and_send_data-Frame,
}
use dl_dsr_rs.Node.Tabled.{HasLabels}
use dl_dsr_rs.Network.Truth.{Leads, IsTrueRoute, IsTruePacket, AreTrue, IsGiven, Knows}
use dl_dsr_rs.Network.Truth.Sends.{
  start_discovery-True, origin_data-True, flush_loop-True, retry_loop-True, forward_rrep-True,
  handle_data-True,
}
use dl_dsr_rs.Network.Truth.Requests.{handle_rreq-True}
use dl_dsr_rs.Network.Truth.Tables.{
  same-Knows, assign-IsAt, insert_route-AreRoutes, shortest-IsTrueRoute,
}

module _ (leads : Leads) (addr : ℕ → SocketAddr) where
  handle_hello_true :
      (s : ProtocolState) (m : Hello) (a here : SocketAddr) (clock : Clock)
      → HasLabels s
      → Knows leads addr s
      → a ≡ addr m.src_node_id
      → ((l : ℕ) (e : NeighborEntry)
          → neighbor_by_label (handle_hello s m a clock).0.neighbors l ≡ some e
          → leads s.config.node_id l e.node_id)
      → Knows leads addr (handle_hello s m a clock).0
        × AreTrue leads addr here (handle_hello s m a clock).1.outbound
  unfolding handle_hello
  handle_hello_true s m a here clock own h from meant =
      elim (Bool-cases (is_logical_neighbor s.config m.src_node_id)) [
        | inr n ↦ rw (n, handle_hello) (h, tt)
        | inl n ↦
            elim (Result-cases (assign_or_reuse_label s.neighbors m.src_node_id a (clock 0)).1) [
              | inr (e, r) ↦ rw (n, r, handle_hello) (h, tt)
              | inl (l, r) ↦
                  let (e, found, is_node, _, _, _) =
                    neighbor_by_label-assign s.neighbors m.src_node_id a (clock 0) l own.own r in
                  let there = meant l e (ground (arith, n, r, found)) in
                  rw (n, r, handle_hello)
                    (
                      record {
                        at = assign-IsAt leads addr s.neighbors m.src_node_id a (clock 0) from h.at;
                        given = h.given;
                        routes = h.routes;
                      },
                      (subst (leads s.config.node_id l) is_node there, tt),
                    )
            ]
      ]

  handle_hello_reply_true :
      (s : ProtocolState) (m : HelloReply) (here : SocketAddr)
      → Knows leads addr s
      → leads m.src_node_id m.assigned_label m.dst_node_id
      → Knows leads addr (handle_hello_reply s m).0
        × AreTrue leads addr here (handle_hello_reply s m).1.outbound
  unfolding handle_hello_reply update_from_hello_reply
  handle_hello_reply_true s m here h t =
      elim (Bool-cases
        (nat_beq m.dst_node_id s.config.node_id && is_logical_neighbor s.config m.src_node_id)) [
          | inr n ↦ rw (n, handle_hello_reply) (h, tt)
          | inl n ↦
              let mine : m.dst_node_id ≡ s.config.node_id = ground arith in
              rw (n, handle_hello_reply)
                (
                  record {
                    at = h.at;
                    given =
                        insert-All (IsGiven leads addr s.config.node_id) m.src_node_id _
                          s.labels.entries (subst (leads m.src_node_id m.assigned_label) mine t)
                          h.given;
                    routes = h.routes;
                  },
                  tt,
                )
        ]

  accept_rrep_true :
      (s : ProtocolState) (r : Rrep) (here : SocketAddr) (clock : Clock)
      → s.config.protocol_mode ≡ dl_dsr
      → s.config.node_id ≡ r.src_node_id
      → Knows leads addr s
      → IsTrueRoute leads r.src_node_id r.dst_node_id r.dsr_path r.dldsr_label_path
      → Knows leads addr (accept_rrep s r clock).0
        × AreTrue leads addr here (accept_rrep s r clock).1.outbound
  unfolding accept_rrep flush_pending route_of
  accept_rrep_true s r here clock mode mine h t =
      let route = route_of s r (clock 0) in
      let q =
        flush_loop-Quiet r.dst_node_id route s.pending_data (later clock) (cache_route s r route) in
      let t' : IsTrueRoute leads s.config.node_id route.dst_node_id route.dsr_path
          route.dldsr_label_path =
        rw (mode, mine) t in
      let t'' : IsTrueRoute leads s.config.node_id r.dst_node_id route.dsr_path
          route.dldsr_label_path =
        rw (mode, mine) t in
      (
        same-Knows leads addr (cache_route s r route) _
            (record { config = q.0.config; neighbors = q.0.neighbors; labels = q.0.labels })
            q.2.routes
            (record {
              at = h.at;
              given = h.given;
              routes =
                  insert_route-AreRoutes leads addr s.routes route s.config.node_id h.routes t';
            }),
        flush_loop-True leads addr here r.dst_node_id route s.pending_data (later clock)
            (cache_route s r route) t'',
      )

  handle_rrep_true :
      (s : ProtocolState) (a : SocketAddr) (r : Rrep) (here : SocketAddr) (clock : Clock)
      → s.config.protocol_mode ≡ dl_dsr
      → Knows leads addr s
      → IsTrueRoute leads r.src_node_id r.dst_node_id r.dsr_path r.dldsr_label_path
      → Knows leads addr (handle_rrep s a r clock).0
        × AreTrue leads addr here (handle_rrep s a r clock).1.outbound
  unfolding handle_rrep
  handle_rrep_true s a r here clock mode h t =
      elim (Result-cases (validate_rrep s.config a r.trace_path)) [
        | inr (why, v) ↦
            rw (v, handle_rrep) (record { at = h.at; given = h.given; routes = h.routes }, tt)
        | inl (_, v) ↦ elim (Bool-cases (nat_beq s.config.node_id r.src_node_id)) [
          | inl mine ↦
              rw (v, mine, handle_rrep) (accept_rrep_true s r here clock mode (ground arith) h t)
          | inr other ↦
              let q = forward_rrep-Quiet s r in
              rw (v, other, handle_rrep)
                (
                  same-Knows leads addr s _ q.0 q.2.routes h,
                  forward_rrep-True leads addr here s r t,
                )
        ]
      ]

  -- Every packet that is true leaves a node with the truth and has it send the truth, where the
  -- labels of the table that it leaves lead where they say.
  pub handle_packet_true :
      (s : ProtocolState) (p : Packet) (a here : SocketAddr) (clock : Clock)
      → s.config.protocol_mode ≡ dl_dsr
      → is_logical_neighbor s.config s.config.node_id ≡ false
      → HasLabels s
      → Knows leads addr s
      → IsTruePacket leads addr a p
      → ((l : ℕ) (e : NeighborEntry)
          → neighbor_by_label (handle_packet s p a clock).0.neighbors l ≡ some e
          → leads s.config.node_id l e.node_id)
      → Knows leads addr (handle_packet s p a clock).0
        × AreTrue leads addr here (handle_packet s p a clock).1.outbound
  unfolding handle_packet
  handle_packet_true s (hello m) a here clock mode alone own h t meant =
      handle_hello_true s m a here clock own h t meant
  handle_packet_true s (hello_reply m) a here clock mode alone own h t meant =
      handle_hello_reply_true s m here h t
  handle_packet_true s (rreq q) a here clock mode alone own h t meant = (
    same-Knows leads addr s _ (handle_rreq-Frame s q clock).0 (handle_rreq-seen s q clock).0 h,
    handle_rreq-True leads addr here s q clock mode alone h.given t.0 t.1,
  )
  handle_packet_true s (rrep r) a here clock mode alone own h t meant =
      handle_rrep_true s a r here clock mode h t
  handle_packet_true s (data_packet p) a here clock mode alone own h t meant =
      let q = handle_data-Quiet s a p clock in
      (same-Knows leads addr s _ q.0 q.2.routes h, handle_data-True leads addr here s a p clock t)
  handle_packet_true s (ack _) a here clock mode alone own h t meant = (h, tt)
  handle_packet_true s (error_packet _) a here clock mode alone own h t meant = (h, tt)

  retry_loop-routes :
      (expired : List (ℕ × DiscoveryState)) (clock : Clock) (acc : ProtocolState × ProtocolActions)
      → (retry_loop expired clock acc).0.routes ≡ acc.0.routes
  unfolding retry_loop fail_discovery retry_discovery start_discovery drop_pending_for_dst
  retry_loop-routes [] clock acc = refl
  retry_loop-routes ((dst, d) ∷ expired) clock acc =
      elim (Bool-cases (leb (acc.0).config.route_discovery_max_retries d.retries_done)) [
        | inl e ↦ rw (e, retry_loop) (retry_loop-routes expired clock _)
        | inr e ↦ rw (e, retry_loop) (retry_loop-routes expired (later clock) _)
      ]

  pub handle_tick_true :
      (s : ProtocolState) (now : ℕ) (here : SocketAddr) (clock : Clock)
      → Knows leads addr s
      → Knows leads addr (handle_tick s now clock).0
        × AreTrue leads addr here (handle_tick s now clock).1.outbound
  unfolding handle_tick retry_expired_discoveries
  handle_tick_true s now here clock h = (
    same-Knows leads addr s _ (handle_tick-Frame s now clock) (retry_loop-routes _ clock _) h,
    retry_loop-True leads addr here _ clock _ tt,
  )

  pub discover_and_send_data_true :
      (s : ProtocolState) (dst : ℕ) (payload : List ℕ) (here : SocketAddr) (clock : Clock)
      → Knows leads addr s
      → Knows leads addr (discover_and_send_data s dst payload clock).0
        × AreTrue leads addr here (discover_and_send_data s dst payload clock).1.outbound
  unfolding discover_and_send_data start_discovery
  discover_and_send_data_true s dst payload here clock h =
      let f = discover_and_send_data-Frame s dst payload clock in
      elim (Option-cases (shortest s.routes dst (clock 0))) [
        | inr (route, e) ↦
            let q = origin_data-Quiet s dst payload route (later clock) in
            rw (e, discover_and_send_data)
              (
                same-Knows leads addr s _ q.0 q.2.routes h,
                origin_data-True leads addr here s dst payload route (later clock)
                    (shortest-IsTrueRoute leads addr s dst (clock 0) route h e),
              )
        | inl e ↦ elim (Bool-cases (contains_key dst s.discoveries)) [
          | inl k ↦
              rw (e, k, discover_and_send_data)
                (record { at = h.at; given = h.given; routes = h.routes }, tt)
          | inr k ↦
              rw (e, k, discover_and_send_data)
                (
                  record { at = h.at; given = h.given; routes = h.routes },
                  start_discovery-True leads addr here _ dst 0 (later clock),
                )
        ]
      ]

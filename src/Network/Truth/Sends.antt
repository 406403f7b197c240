-- ===== src/Network/Truth/Sends.antt =====
-- What a node that knows the truth sends is true: its own requests, payloads and replies.
use dl_dsr_rs.Base.{
  ℕ, ◌≡◌, refl, inl, inr, Bool-cases, Option-cases, List, [], ◌∷◌, ◌++◌, foldl_inv, All-append,
  contains, false, ◌⊎◌, nat_eq, nat_beq, leb, arith,
}
use dl_dsr_rs.Core.Socket.{SocketAddr}
use dl_dsr_rs.Core.Packet.{Packet, DataPacket, Rrep, rreq}
use dl_dsr_rs.Core.Routes.{RouteEntry}
use dl_dsr_rs.Node.State.{
  Clock, later, Reason, PendingData, OutboundPacket, DiscoveryState, ProtocolActions, no_actions,
  ProtocolState,
}
use dl_dsr_rs.Node.Lookup.{logical_neighbors, endpoint}
use dl_dsr_rs.Node.Origin.{drop_data, lookup_packet, origin_data, flush_loop, drop_pending_for_dst}
use dl_dsr_rs.Node.Discovery.{
  first_rreq, send_to_neighbor, start_discovery, fail_discovery, retry_discovery, retry_loop,
}
use dl_dsr_rs.Node.Frame.{origin_data-Quiet}
use dl_dsr_rs.Node.Rrep.{forward_rrep}
use dl_dsr_rs.Node.Data.{
  deliver_data, pass_on, forward_dsr, forward_dldsr, forward_data, handle_data,
}
use dl_dsr_rs.Network.Truth.{Leads, IsTrueRoute, IsTruePacket, AreTrue}

-- The path of a first request meets the destination only where it starts there.
alone_on_path : (a d : ℕ) → (a ≡ d) ⊎ (contains (a ∷ []) d ≡ false)
alone_on_path a d = elim (Bool-cases (nat_beq a d)) [
  | inl e ↦ inl (ground arith)
  | inr e ↦ inr (ground arith)
]

module _ (leads : Leads) (addr : ℕ → SocketAddr) (here : SocketAddr) where
  abbrev pub True : List OutboundPacket → Type 0
  True = AreTrue leads addr here

  abbrev pub TruePacket : Packet → Type 0
  TruePacket = IsTruePacket leads addr here

  pub True-snoc :
      (xs : List OutboundPacket) (p : Packet) (a : SocketAddr)
      → True xs
      → TruePacket p
      → True (xs ++ (record { packet = p; dst = a } ∷ []))
  True-snoc xs p a h k = All-append (λ o. TruePacket o.packet) xs _ h (k, tt)

  -- The loop of `start_discovery`.
  send_to_neighbor-True :
      (s : ProtocolState) (p : Packet) (actions : ProtocolActions) (n : ℕ)
      → TruePacket p
      → True actions.outbound
      → True (send_to_neighbor s p actions n).outbound
  unfolding send_to_neighbor
  send_to_neighbor-True s p actions n k h = elim (Option-cases (endpoint s.config n)) [
    | inl e ↦ rw (e, send_to_neighbor) h
    | inr (a, e) ↦ rw (e, send_to_neighbor) (True-snoc actions.outbound p a h k)
  ]

  pub start_discovery-True :
      (s : ProtocolState) (dst retries : ℕ) (clock : Clock)
      → True (start_discovery s dst retries clock).1.outbound
  unfolding start_discovery first_rreq
  start_discovery-True s dst retries clock =
      let p = rreq (first_rreq s dst s.next_request_id (clock 0)) in
      foldl_inv (λ (x : ProtocolActions). True x.outbound) (send_to_neighbor s p) no_actions
        (logical_neighbors s.config)
        (λ actions n h.
          send_to_neighbor-True s p actions n
            (record { first = refl; last = refl; led = tt }, alone_on_path s.config.node_id dst) h)
        tt

  -- A payload at its source, and those that waited.
  pub origin_data-True :
      (s : ProtocolState) (dst : ℕ) (payload : List ℕ) (route : RouteEntry) (clock : Clock)
      → IsTrueRoute leads s.config.node_id dst route.dsr_path route.dldsr_label_path
      → True (origin_data s dst payload route clock).1.outbound
  unfolding origin_data lookup_packet drop_data
  origin_data-True s dst payload route clock h = ground arith

  pub flush_loop-True :
      (dst : ℕ) (route : RouteEntry) (queue : List PendingData) (clock : Clock) (s : ProtocolState)
      → IsTrueRoute leads s.config.node_id dst route.dsr_path route.dldsr_label_path
      → True (flush_loop dst route queue clock s).1
  unfolding flush_loop
  flush_loop-True dst route [] clock s h = tt
  flush_loop-True dst route (p ∷ queue) clock s h = elim (Bool-cases (nat_beq p.dst_node_id dst)) [
    | inr e ↦ rw (e, flush_loop) (flush_loop-True dst route queue clock s h)
    | inl e ↦
        let same = (origin_data-Quiet s dst p.payload route clock).0.config in
        rw (e, flush_loop)
          (All-append (λ o. TruePacket o.packet) _ _
            (origin_data-True s dst p.payload route clock h)
            (flush_loop-True dst route queue (later clock) _ (rw same h)))
  ]

  -- The retries of a tick.
  pub retry_loop-True :
      (expired : List (ℕ × DiscoveryState)) (clock : Clock) (acc : ProtocolState × ProtocolActions)
      → True acc.1.outbound
      → True (retry_loop expired clock acc).1.outbound
  unfolding retry_loop fail_discovery retry_discovery drop_pending_for_dst
  retry_loop-True [] clock acc h = h
  retry_loop-True ((dst, d) ∷ expired) clock acc h =
      elim (Bool-cases (leb (acc.0).config.route_discovery_max_retries d.retries_done)) [
        | inl e ↦ rw (e, retry_loop) (retry_loop-True expired clock _ (ground arith))
        | inr e ↦
            rw (e, retry_loop)
              (retry_loop-True expired (later clock) _ (
                All-append (λ o. TruePacket o.packet) _ _ h
                  (start_discovery-True acc.0 dst _ clock)))
      ]

  -- A reply and a payload that are passed on.
  pub forward_rrep-True :
      (s : ProtocolState) (r : Rrep)
      → IsTrueRoute leads r.src_node_id r.dst_node_id r.dsr_path r.dldsr_label_path
      → True (forward_rrep s r).1.outbound
  unfolding forward_rrep
  forward_rrep-True s r t = ground arith

  drop_data-True :
      (s : ProtocolState) (dst : ℕ) (why : Reason) → True (drop_data s dst why).1.outbound
  unfolding drop_data
  drop_data-True s dst why = tt

  deliver_data-True :
      (s : ProtocolState) (sender : ℕ) (p : DataPacket) (clock : Clock)
      → True (deliver_data s sender p clock).1.outbound
  unfolding deliver_data drop_data
  deliver_data-True s sender p clock = ground arith

  forward_data-True :
      (s : ProtocolState) (p : DataPacket)
      → IsTrueRoute leads p.src_node_id p.dst_node_id p.dsr_path p.dldsr_label_path
      → True (forward_data s p).1.outbound
  unfolding forward_data forward_dsr forward_dldsr pass_on drop_data
  forward_data-True s p t = ground arith

  pub handle_data-True :
      (s : ProtocolState) (sender : SocketAddr) (p : DataPacket) (clock : Clock)
      → IsTrueRoute leads p.src_node_id p.dst_node_id p.dsr_path p.dldsr_label_path
      → True (handle_data s sender p clock).1.outbound
  unfolding handle_data
  handle_data-True s sender p clock t =
      grind (arith, drop_data-True, deliver_data-True, forward_data-True s p t)

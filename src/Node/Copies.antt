-- ===== src/Node/Copies.antt =====
-- The loop of `handle_rreq` over the neighbours: one copy to each but the previous hop.
use dl_dsr_rs.Base.{
  ℕ, ◌≡◌, refl, sym, subst, ◌∙◌, true, false, inl, inr, ◌⊎◌, Bool-cases, Option-cases, List, [],
  ◌∷◌, ◌++◌, none, some, map, foldl, nat_beq, arith, pair_eq, add_u64,
}
use mathlib.Core.List.{append-nil, append_assoc}
use dl_dsr_rs.Core.Socket.{SocketAddr}
use dl_dsr_rs.Core.Packet.{Rreq, rreq, Packet}
use dl_dsr_rs.Core.Topology.{NodeConfig}
use dl_dsr_rs.Node.State.{OutboundPacket, ProtocolActions, no_actions, send, ProtocolState}
use dl_dsr_rs.Node.Lookup.{logical_neighbors, endpoint}
use dl_dsr_rs.Node.Rreq.{next_rreq, forward_rreq, route_rreq}

-- The addresses of the neighbours but `previous`, in their order.
unfoldable pub targets : NodeConfig → ℕ → List ℕ → List SocketAddr
targets c previous [] = []
targets c previous (n ∷ ns) =
    let rest = targets c previous ns in
    elim (nat_beq n previous) [
      | true ↦ rest
      | false ↦ elim (endpoint c n) [ none ↦ rest | some a ↦ a ∷ rest ]
    ]

-- One copy of a packet to each address.
abbrev pub copies : Packet → List SocketAddr → List OutboundPacket
copies p = map (λ a. record { packet = p; dst = a })

forward_skip :
    (r : Rreq) (n : ℕ) (s : ProtocolState) (actions : ProtocolActions)
    → (nat_beq n r.previous_hop ≡ true) ⊎ (endpoint s.config n ≡ none)
    → forward_rreq r (s, actions) n ≡ (s, actions)
unfolding forward_rreq
forward_skip r n s actions h = ground arith

-- The state after a copy went out.
abbrev counted : ProtocolState → ProtocolState
counted s = record s {
  metrics = record (s.metrics) { rreq_forwarded = add_u64 s.metrics.rreq_forwarded 1 };
}

forward_send :
    (r : Rreq) (n : ℕ) (s : ProtocolState) (actions : ProtocolActions) (a : SocketAddr)
    → nat_beq n r.previous_hop ≡ false
    → endpoint s.config n ≡ some a
    → forward_rreq r (s, actions) n ≡ (counted s, send actions (rreq (next_rreq s r)) a)
unfolding forward_rreq
forward_send r n s actions a h k = ground arith

-- What the loop over `ns` sends when it goes on from `acc`: the given copies after those before.
abbrev LoopSends :
    Rreq → List ℕ → ProtocolActions → List OutboundPacket → ProtocolState × ProtocolActions → Type 0
LoopSends r ns before sent acc =
    ((foldl (forward_rreq r) acc ns).1.outbound ≡ before.outbound ++ sent)
    × ((foldl (forward_rreq r) acc ns).1.events ≡ before.events)

forward_loop :
    (r : Rreq) (ns : List ℕ) (s : ProtocolState) (actions : ProtocolActions)
    → LoopSends r ns actions
        (copies (rreq (next_rreq s r)) (targets s.config r.previous_hop ns))
        (s, actions)
unfolding targets
forward_loop r [] s actions = (sym (append-nil actions.outbound), refl)
forward_loop r (n ∷ ns) s actions = elim (Bool-cases (nat_beq n r.previous_hop)) [
  | inl back ↦
      subst
        (LoopSends r ns actions
          (copies (rreq (next_rreq s r)) (targets s.config r.previous_hop (n ∷ ns))))
        (sym (forward_skip r n s actions (inl back)))
        (rw (back, targets) (forward_loop r ns s actions))
  | inr on ↦ elim (Option-cases (endpoint s.config n)) [
    | inl unknown ↦
        subst
          (LoopSends r ns actions
            (copies (rreq (next_rreq s r)) (targets s.config r.previous_hop (n ∷ ns))))
          (sym (forward_skip r n s actions (inr unknown)))
          (rw (on, unknown, targets) (forward_loop r ns s actions))
    | inr (a, known) ↦
        let (out, events) = forward_loop r ns (counted s) (send actions (rreq (next_rreq s r)) a) in
        subst
          (LoopSends r ns actions
            (copies (rreq (next_rreq s r)) (targets s.config r.previous_hop (n ∷ ns))))
          (sym (forward_send r n s actions a on known))
          (rw (on, known, targets) (out ∙ append_assoc actions.outbound _ _, events))
  ]
]

-- A request that is not for the node goes out once to each neighbour with an address but the one
-- that it came from, with the node as its previous hop and its hop count one higher.
pub route_rreq-outbound :
    (s : ProtocolState) (r : Rreq)
    → nat_beq s.config.node_id r.dst_node_id ≡ false
    → (route_rreq s r).1 ≡ record {
      outbound =
          copies
            (rreq (next_rreq s r))
            (targets s.config r.previous_hop (logical_neighbors s.config));
      events = [];
    }
unfolding route_rreq
route_rreq-outbound s r h =
    let (out, events) = forward_loop r (logical_neighbors s.config) s no_actions in
    rw (h, route_rreq) (λ i. record { outbound = out i; events = events i })

-- ===== src/Network/Truth/Requests.antt =====
-- A request that a node passes on or answers stays true.
use dl_dsr_rs.Base.{
  ℕ, ◌≡◌, refl, sym, subst, true, inl, inr, Bool-cases, Option-cases, List, [], ◌∷◌, ◌++◌, some,
  foldl_inv, last?, All, contains, false, ◌⊎◌, ap, ◌∙◌, nat_eq, nat_beq, arith,
}
use dl_dsr_rs.HashMap.{get}
use dl_dsr_rs.HashMap.Everywhere.{get-All}
use dl_dsr_rs.Core.Socket.{SocketAddr}
use dl_dsr_rs.Core.Packet.{dl_dsr, Rreq, rreq}
use dl_dsr_rs.Core.Tables.{LabelTable, label_assigned_by_neighbor}
use dl_dsr_rs.Core.Seen.{mark_if_new}
use dl_dsr_rs.Node.State.{Clock, ProtocolActions, no_actions, ProtocolState}
use dl_dsr_rs.Node.Lookup.{logical_neighbors, is_logical_neighbor, endpoint}
use dl_dsr_rs.Node.Rreq.{
  push_hop, visited, answer_rreq, forward_rreq, next_rreq, route_rreq, label_rreq, handle_rreq,
}
use dl_dsr_rs.Network.Paths.{MeetsLast, MeetsLast-snoc}
use dl_dsr_rs.Network.Truth.{Leads, IsTrueRoute, IsTrueWay, IsTrueWay-snoc, IsGiven}
use dl_dsr_rs.Network.Truth.Sends.{True, True-snoc}

-- In the label mode a node pushes itself on every path that ends elsewhere.
pub push_hop-last :
    (b a : ℕ) (path : List ℕ)
    → last? path ≡ some a
    → nat_beq a b ≡ false
    → push_hop b path ≡ path ++ (b ∷ [])
unfolding push_hop
push_hop-last b a path h e = ground arith

-- What the path of a request has met.
abbrev Unmet : ℕ → ℕ → List ℕ → Type 0
Unmet src dst path = (src ≡ dst) ⊎ (contains path dst ≡ false)

Unmet-snoc :
    (src dst n : ℕ) (path : List ℕ)
    → Unmet src dst path
    → nat_beq n dst ≡ false
    → Unmet src dst (path ++ (n ∷ []))
Unmet-snoc src dst n path (inl e) far = inl e
Unmet-snoc src dst n path (inr h) far = inr (still_unmet path h)
  where
    still_unmet :
        (path : List ℕ) → contains path dst ≡ false → contains (path ++ (n ∷ [])) dst ≡ false
    still_unmet [] h = ground arith
    still_unmet (x ∷ path) h = ground (arith, still_unmet path (ground arith))

Unmet-MeetsLast :
    (src dst : ℕ) (path whole : List ℕ)
    → Unmet src dst path
    → whole ≡ path ++ (dst ∷ [])
    → (src ≡ dst) ⊎ MeetsLast dst whole
Unmet-MeetsLast src dst path whole (inl e) q = inl e
Unmet-MeetsLast src dst path whole (inr h) q =
    inr (subst (MeetsLast dst) (sym q) (MeetsLast-snoc dst path h))

module _ (leads : Leads) (addr : ℕ → SocketAddr) (here : SocketAddr) where
  -- A request on its way.
  forward_rreq-True :
      (q : Rreq) (n : ℕ) (acc : ProtocolState × ProtocolActions) (m : ℕ)
      → IsTrueWay leads q.src_node_id n q.dsr_path q.dldsr_label_path
        × Unmet q.src_node_id q.dst_node_id q.dsr_path
      → (acc.0.config.node_id ≡ n) × True leads addr here acc.1.outbound
      → ((forward_rreq q acc m).0.config.node_id ≡ n)
        × True leads addr here (forward_rreq q acc m).1.outbound
  unfolding forward_rreq
  forward_rreq-True q n acc m t (id, h) = elim (Bool-cases (nat_beq m q.previous_hop)) [
    | inl e ↦ rw (e, forward_rreq) (id, h)
    | inr e ↦ elim (Option-cases (endpoint acc.0.config m)) [
      | inl k ↦ rw (e, k, forward_rreq) (id, h)
      | inr (a, k) ↦
          rw (e, k, forward_rreq)
            (id, True-snoc leads addr here acc.1.outbound (rreq (next_rreq acc.0 q)) a h (rw id t))
    ]
  ]

  answer_rreq-True :
      (s : ProtocolState) (q : Rreq)
      → IsTrueRoute leads q.src_node_id q.dst_node_id q.dsr_path q.dldsr_label_path
      → True leads addr here (answer_rreq s q).1.outbound
  unfolding answer_rreq
  answer_rreq-True s q t = ground arith

  -- `path` is what the node has pushed itself on.
  route_rreq-True :
      (s : ProtocolState) (q : Rreq) (path : List ℕ)
      → q.dsr_path ≡ path ++ (s.config.node_id ∷ [])
      → Unmet q.src_node_id q.dst_node_id path
      → IsTrueWay leads q.src_node_id s.config.node_id q.dsr_path q.dldsr_label_path
      → True leads addr here (route_rreq s q).1.outbound
  unfolding route_rreq
  route_rreq-True s q path pushed unmet t =
      elim (Bool-cases (nat_beq s.config.node_id q.dst_node_id)) [
        | inl mine ↦
            let e : s.config.node_id ≡ q.dst_node_id = ground arith in
            rw (mine, route_rreq)
              (answer_rreq-True s q (record {
                way =
                    subst (λ d. IsTrueWay leads q.src_node_id d q.dsr_path q.dldsr_label_path) e t;
                once =
                    Unmet-MeetsLast q.src_node_id q.dst_node_id path q.dsr_path unmet
                      (pushed ∙ ap (λ d. path ++ (d ∷ [])) e);
              }))
        | inr other ↦
            let unmet' =
              subst (Unmet q.src_node_id q.dst_node_id) (sym pushed)
                (Unmet-snoc q.src_node_id q.dst_node_id s.config.node_id path unmet other) in
            rw (other, route_rreq)
              (foldl_inv
                (λ (x : ProtocolState × ProtocolActions).
                  (x.0.config.node_id ≡ s.config.node_id) × True leads addr here x.1.outbound)
                (forward_rreq q) (s, no_actions) (logical_neighbors s.config)
                (λ acc m h. forward_rreq-True q s.config.node_id acc m (t, unmet') h) (refl, tt)).1
      ]

  given_leads :
      (t : LabelTable) (n a l : ℕ)
      → All (IsGiven leads addr n) t.entries
      → label_assigned_by_neighbor t a ≡ some l
      → leads a l n
  unfolding label_assigned_by_neighbor
  given_leads t n a l h e = elim (Option-cases (get a t.entries)) [
    | inl k ↦ absurd (ground arith)
    | inr (entry, k) ↦
        let q : entry.label_assigned_by_neighbor_to_me ≡ l = ground arith in
        subst (λ m. leads a m n) q (get-All (IsGiven leads addr n) a entry t.entries h k)
  ]

  -- The previous hop is a neighbour of the node, which is none of its own.
  label_rreq-True :
      (s : ProtocolState) (q : Rreq)
      → s.config.protocol_mode ≡ dl_dsr
      → is_logical_neighbor s.config s.config.node_id ≡ false
      → is_logical_neighbor s.config q.previous_hop ≡ true
      → All (IsGiven leads addr s.config.node_id) s.labels.entries
      → IsTrueWay leads q.src_node_id q.previous_hop q.dsr_path q.dldsr_label_path
      → Unmet q.src_node_id q.dst_node_id q.dsr_path
      → True leads addr here (label_rreq s (visited s q)).1.outbound
  unfolding label_rreq
  label_rreq-True s q mode alone near given t unmet =
      elim (Option-cases (label_assigned_by_neighbor s.labels q.previous_hop)) [
        | inl k ↦ rw (mode, k, label_rreq) tt
        | inr (l, k) ↦
            let apart : nat_beq q.previous_hop s.config.node_id ≡ false =
              elim (Bool-cases (nat_beq q.previous_hop s.config.node_id)) [
                | inr e ↦ e
                | inl e ↦
                    let same : q.previous_hop ≡ s.config.node_id = ground arith in
                    absurd (ground (arith, same))
              ] in
            let longer =
              IsTrueWay-snoc leads q.src_node_id q.previous_hop l s.config.node_id q.dsr_path
                q.dldsr_label_path t
                (given_leads s.labels s.config.node_id q.previous_hop l given k) in
            let path = push_hop-last s.config.node_id q.previous_hop q.dsr_path t.last apart in
            rw (mode, k, label_rreq)
              (route_rreq-True s _ q.dsr_path path unmet (
                subst
                  (λ p.
                    IsTrueWay leads q.src_node_id s.config.node_id p
                      (q.dldsr_label_path ++ (l ∷ [])))
                  (sym path) longer))
      ]

  pub handle_rreq-True :
      (s : ProtocolState) (q : Rreq) (clock : Clock)
      → s.config.protocol_mode ≡ dl_dsr
      → is_logical_neighbor s.config s.config.node_id ≡ false
      → All (IsGiven leads addr s.config.node_id) s.labels.entries
      → IsTrueWay leads q.src_node_id q.previous_hop q.dsr_path q.dldsr_label_path
      → Unmet q.src_node_id q.dst_node_id q.dsr_path
      → True leads addr here (handle_rreq s q clock).1.outbound
  unfolding handle_rreq
  handle_rreq-True s q clock mode alone given t unmet =
      elim (Bool-cases (is_logical_neighbor s.config q.previous_hop)) [
        | inr far ↦ rw (far, handle_rreq) tt
        | inl near ↦
            let marked : ProtocolState = record s {
              seen_requests =
                  (mark_if_new s.seen_requests q.src_node_id q.request_id (clock 0)
                    s.config.seen_request_ttl_ms s.config.seen_request_max_entries).0;
            } in
            ground (arith, label_rreq-True marked q mode alone near given t unmet)
      ]

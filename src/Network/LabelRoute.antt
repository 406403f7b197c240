-- ===== src/Network/LabelRoute.antt =====
-- A route of labels takes a payload from its first node to its last.
use dl_dsr_rs.Base.{
  ℕ, zero, suc, ◌+◌, ◌<◌, ◌^◌, ◌≡◌, refl, sym, ap, subst, ◌∙◌, true, false, List, [], ◌∷◌, some,
  drop, get_elem?, last?, length, nat_beq, arith,
}
use dl_dsr_rs.Core.Socket.{SocketAddr}
use dl_dsr_rs.Core.Packet.{dl_dsr, DataPacket}
use dl_dsr_rs.Core.Routes.{RouteEntry}
use dl_dsr_rs.Core.Tables.{NeighborEntry, neighbor_by_label}
use dl_dsr_rs.Node.State.{Clock, ProtocolState}
use dl_dsr_rs.Node.Lookup.{is_logical_neighbor, next_data_endpoint}
use dl_dsr_rs.Node.Origin.{lookup_packet, origin_data}
use dl_dsr_rs.Node.Data.{handle_data}
use dl_dsr_rs.Network.Paths.{MeetsLast}
use dl_dsr_rs.Network.Journey.{
  at_cursor, only_send, Accepts, relay_dldsr, arrive_dldsr, Delivers, arrive, relay,
}

drop_cons :
    (c l : ℕ) (ls xs : List ℕ)
    → drop c xs ≡ l ∷ ls
    → (get_elem? xs c ≡ some l) × (drop (suc c) xs ≡ ls)
drop_cons zero l ls [] h = cc
drop_cons zero l ls (x ∷ xs) h = ground arith
drop_cons (suc c) l ls [] h = cc
drop_cons (suc c) l ls (x ∷ xs) h = drop_cons c l ls xs h

module _ (nodes : ℕ → ProtocolState) (addr : ℕ → SocketAddr) (clock : ℕ → Clock) where
  -- At `a` the label `l` means `b`, at its address, and `b` takes packets from `a`.
  pub record LabelLinks (a b l : ℕ) : Type 0 where
    pub entry : NeighborEntry
    pub found : neighbor_by_label (nodes a).neighbors l ≡ some entry
    pub is_next : entry.node_id ≡ b
    pub reaches : entry.endpoint ≡ addr b
    pub logical : is_logical_neighbor (nodes a).config b ≡ true
    pub accepts : Accepts (nodes b) b a (addr a) dl_dsr

  -- Each label leads from one node of the path to the next.
  abbrev pub IsLabelRoute : List ℕ → List ℕ → Type 0
  IsLabelRoute (a ∷ b ∷ r) (l ∷ ls) = LabelLinks a b l × IsLabelRoute (b ∷ r) ls
  IsLabelRoute (a ∷ []) [] = Unit {0}
  IsLabelRoute _ _ = ⊥

  -- From a relay on.
  pub delivers_from :
      (rest ls : List ℕ) (a b c d : ℕ) (p : DataPacket)
      → MeetsLast d (b ∷ rest)
      → Accepts (nodes b) b a (addr a) dl_dsr
      → IsLabelRoute (b ∷ rest) ls
      → drop c p.dldsr_label_path ≡ ls
      → c + length ls ≡ length p.dldsr_label_path
      → p.protocol_mode ≡ dl_dsr
      → p.route_cursor ≡ c
      → p.dst_node_id ≡ d
      → last? (b ∷ rest) ≡ some d
      → length p.dldsr_label_path < 2 ^ 64
      → Delivers nodes addr clock b (addr a) p d
  delivers_from [] [] a b c d p once acc route at size m cur dst end len =
      let e : b ≡ d = ground arith in
      subst (Delivers nodes addr clock b (addr a) p) e
        (arrive (arrive_dldsr (nodes b) b a (addr a) p (clock b) acc m (dst ∙ sym e) (omega arith)))
  delivers_from [] (l ∷ ls) a b c d p once acc route at size m cur dst end len = elim route [ ]
  delivers_from (x ∷ rest) [] a b c d p once acc route at size m cur dst end len = elim route [ ]
  delivers_from (x ∷ rest) (l ∷ ls) a b c d p once acc route at size m cur dst end len =
      let link = route.0 in
      let (here, next) = drop_cons c l ls p.dldsr_label_path at in
      let other : nat_beq p.dst_node_id b ≡ false = ap (λ z. nat_beq z b) dst ∙ once.0 in
      let up : p.route_cursor + 1 ≡ suc c = omega arith in
      let sent =
        relay_dldsr (nodes b) b a (addr a) p (clock b) l link.entry acc m other (omega arith)
          (rw cur here) link.found (rw link.is_next link.logical) in
      relay (p.route_cursor + 1)
        (subst
          (λ e.
            (handle_data (nodes b) (addr a) p (clock b)).1
            ≡ only_send (at_cursor p (p.route_cursor + 1)) e)
          link.reaches sent)
        (delivers_from rest ls b x (suc c) d (at_cursor p (p.route_cursor + 1)) once.1 link.accepts
          route.1 next (omega arith) m up dst end len)

  -- Let a route carry a non-empty label path of fewer than 2^64 labels that leads along nodes
  -- from `a`, over its neighbour `b`, to `d`, which after `a` is met at the end alone: each label
  -- is in the table of its node, for the next node on the path, a neighbour, at its address, and
  -- each node after the first is in the label mode and knows the one before it as a neighbour.
  -- Then `a`, in the label mode, sends the payload once, to `b`, and it is relayed from node to
  -- node, with no change but the cursor, and handed over once, at `d`.
  pub label_route_delivers :
      (a b d l : ℕ) (rest ls payload : List ℕ) (r : RouteEntry) (time : Clock)
      → r.dldsr_label_path ≡ l ∷ ls
      → (nodes a).config.node_id ≡ a
      → (nodes a).config.protocol_mode ≡ dl_dsr
      → MeetsLast d (b ∷ rest)
      → IsLabelRoute (a ∷ b ∷ rest) (l ∷ ls)
      → last? (b ∷ rest) ≡ some d
      → length (l ∷ ls) < 2 ^ 64
      → let p = at_cursor (lookup_packet (nodes a) d payload r (time 0)) 1 in
        ((origin_data (nodes a) d payload r time).1 ≡ only_send p (addr b))
        × (p.payload ≡ payload)
        × Delivers nodes addr clock b (addr a) p d
  unfolding origin_data lookup_packet next_data_endpoint
  label_route_delivers a b d l rest ls payload r time path id m once route end len =
      let link = route.0 in
      let found = link.found in
      let reaches = link.reaches in
      (
        ground (arith, found, reaches),
        refl,
        delivers_from rest ls a b 1 d (at_cursor (lookup_packet (nodes a) d payload r (time 0)) 1)
            once link.accepts route.1 (rw path refl) (rw path (omega arith)) m refl refl end
            (rw path len),
      )

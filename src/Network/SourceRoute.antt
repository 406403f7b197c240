-- ===== src/Network/SourceRoute.antt =====
-- A route of node ids takes a payload from its first node to its last.
use dl_dsr_rs.Base.{
  ℕ, suc, ◌+◌, ◌<◌, ◌^◌, ◌≡◌, refl, sym, ap, subst, ◌∙◌, true, false, List, [], ◌∷◌, some, drop,
  last?, length, nat_beq, arith, inl, inr, Bool-cases,
}
use dl_dsr_rs.Core.Socket.{SocketAddr}
use dl_dsr_rs.Core.Packet.{dsr, DataPacket}
use dl_dsr_rs.Core.Routes.{RouteEntry}
use dl_dsr_rs.Node.State.{Clock, ProtocolState}
use dl_dsr_rs.Node.Lookup.{is_logical_neighbor, before, endpoint, next_data_endpoint}
use dl_dsr_rs.Node.Origin.{lookup_packet, origin_data}
use dl_dsr_rs.Network.Paths.{
  IsSimple, drop_facts, contains-last?, position-get_elem?, drop-IsSimple,
}
use dl_dsr_rs.Network.Journey.{
  at_cursor, only_send, Accepts, relay_dsr, arrive_dsr, Delivers, arrive, relay,
}

module _ (nodes : ℕ → ProtocolState) (addr : ℕ → SocketAddr) (clock : ℕ → Clock) where
  -- `a` has `b` as its neighbour, at its address, and `b` takes packets from `a`.
  pub record Links (a b : ℕ) : Type 0 where
    pub logical : is_logical_neighbor (nodes a).config b ≡ true
    pub reaches : endpoint (nodes a).config b ≡ some (addr b)
    pub accepts : Accepts (nodes b) b a (addr a) dsr

  -- Each node of the path is linked to the next.
  abbrev pub IsRoute : List ℕ → Type 0
  IsRoute [] = Unit {0}
  IsRoute (a ∷ []) = Unit {0}
  IsRoute (a ∷ b ∷ r) = Links a b × IsRoute (b ∷ r)

  delivers_from :
      (rest : List ℕ) (a b c d : ℕ) (p : DataPacket)
      → IsSimple p.dsr_path
      → drop c p.dsr_path ≡ a ∷ b ∷ rest
      → IsRoute (a ∷ b ∷ rest)
      → p.protocol_mode ≡ dsr
      → p.route_cursor ≡ suc c
      → p.dst_node_id ≡ d
      → last? p.dsr_path ≡ some d
      → length p.dsr_path < 2 ^ 64
      → Delivers nodes addr clock b (addr a) p d
  unfolding before
  delivers_from [] a b c d p simple at route m cur dst end len =
      let (here, there, _, same, _) = drop_facts c a b [] p.dsr_path at in
      let e : b ≡ d = ground arith in
      subst (Delivers nodes addr clock b (addr a) p) e (
        arrive (
          arrive_dsr (nodes b) b a (addr a) p (clock b) route.0.accepts m (dst ∙ sym e)
            (ground arith)
            (position-get_elem? p.dsr_path (suc c) b simple there ∙ ap some (sym cur))
            (rw cur here)))
  delivers_from (x ∷ rest) a b c d p simple at route m cur dst end len =
      let (here, there, next, same, lt) = drop_facts c a b (x ∷ rest) p.dsr_path at in
      let (_, beyond, _, _, lt') = drop_facts (suc c) b x rest p.dsr_path next in
      let apart = (subst IsSimple next (drop-IsSimple (suc c) p.dsr_path simple)).0 in
      let ends = contains-last? (x ∷ rest) d (ground arith) in
      let other : nat_beq p.dst_node_id b ≡ false = elim (Bool-cases (nat_beq p.dst_node_id b)) [
        | inr n ↦ n
        | inl y ↦ absurd (ground arith)
      ] in
      let up : p.route_cursor + 1 ≡ suc (suc c) = omega arith in
      relay (p.route_cursor + 1)
        (relay_dsr (nodes b) b a (addr a) p (clock b) x (addr x) route.0.accepts m other
          (omega arith) (rw cur there) (rw up beyond) route.1.0.logical route.1.0.reaches)
        (delivers_from rest b x (suc c) d (at_cursor p (p.route_cursor + 1)) simple next route.1 m
          up dst end len)

  -- Let a route carry a path of fewer than 2^64 distinct nodes from `a`, over `b`, to `d`, each
  -- linked to the next: it has the next as its neighbour, at its address, and the next is in the
  -- mode of node ids and knows it as a neighbour. Then `a`, in that mode, sends the payload once,
  -- to `b`, and it is relayed from node to node, with no change but the cursor, and handed over
  -- once, at `d`.
  pub source_route_delivers :
      (a b d : ℕ) (rest payload : List ℕ) (r : RouteEntry) (time : Clock)
      → r.dsr_path ≡ a ∷ b ∷ rest
      → (nodes a).config.node_id ≡ a
      → (nodes a).config.protocol_mode ≡ dsr
      → IsSimple (a ∷ b ∷ rest)
      → IsRoute (a ∷ b ∷ rest)
      → last? (b ∷ rest) ≡ some d
      → length (a ∷ b ∷ rest) < 2 ^ 64
      → let p = at_cursor (lookup_packet (nodes a) d payload r (time 0)) 1 in
        ((origin_data (nodes a) d payload r time).1 ≡ only_send p (addr b))
        × (p.payload ≡ payload)
        × Delivers nodes addr clock b (addr a) p d
  unfolding origin_data lookup_packet next_data_endpoint
  source_route_delivers a b d rest payload r time path id m simple route end len =
      let reaches = route.0.reaches in
      let up : 0 + 1 ≡ 1 = omega arith in
      (
        ground (arith, reaches),
        refl,
        delivers_from rest a b 0 d (at_cursor (lookup_packet (nodes a) d payload r (time 0)) 1)
            (rw path simple) path route m refl refl (rw path end) (rw path len),
      )

-- ===== src/Network/RoundTrip.antt =====
-- A discovery, out and back: the request that the source starts reaches the destination along a
-- path, and the answer returns along it.
use dl_dsr_rs.Base.{
  ℕ, zero, suc, ◌<◌, ◌≡◌, refl, sym, ap, subst, true, inl, inr, Bool-cases, Option-cases, List, [],
  ◌∷◌, ◌++◌, some, get_elem?, last?, length, foldl, contains, nat_eq, nat_beq, arith,
}
use dl_dsr_rs.Core.Socket.{SocketAddr}
use dl_dsr_rs.Core.Packet.{Packet, rreq}
use dl_dsr_rs.Node.State.{Clock, OutboundPacket, ProtocolActions, no_actions, ProtocolState}
use dl_dsr_rs.Node.Lookup.{logical_neighbors, endpoint}
use dl_dsr_rs.Node.Discovery.{first_rreq, send_to_neighbor, start_discovery}
use dl_dsr_rs.Network.Paths.{IsSimple}
use dl_dsr_rs.Network.ReplyRoute.{IsTrace, Returns, reply-Returns}
use dl_dsr_rs.Network.RequestRoute.{IsWay, Arrives, answer_to, last_but_one, request-Arrives}
use dl_dsr_rs.Network.Hops.{neighbor_listed}

get_elem?-append :
    (xs ys : List OutboundPacket) (i : ℕ) (o : OutboundPacket)
    → get_elem? xs i ≡ some o
    → get_elem? (xs ++ ys) i ≡ some o
get_elem?-append [] ys i o h = cc
get_elem?-append (x ∷ xs) ys zero o h = h
get_elem?-append (x ∷ xs) ys (suc i) o h = get_elem?-append xs ys i o h

get_elem?-snoc :
    (xs : List OutboundPacket) (o : OutboundPacket)
    → get_elem? (xs ++ (o ∷ [])) (length xs) ≡ some o
get_elem?-snoc [] o = refl
get_elem?-snoc (x ∷ xs) o = get_elem?-snoc xs o

-- What was sent stays sent while the loop goes on.
loop_keeps :
    (s : ProtocolState) (p : Packet) (ns : List ℕ) (actions : ProtocolActions) (i : ℕ)
    (o : OutboundPacket)
    → get_elem? actions.outbound i ≡ some o
    → get_elem? (foldl (send_to_neighbor s p) actions ns).outbound i ≡ some o
unfolding send_to_neighbor
loop_keeps s p [] actions i o h = h
loop_keeps s p (n ∷ ns) actions i o h = elim (Option-cases (endpoint s.config n)) [
  | inl e ↦ loop_keeps s p ns _ i o (ground arith)
  | inr (a, e) ↦
      let more = get_elem?-append actions.outbound (record { packet = p; dst = a } ∷ []) i o h in
      loop_keeps s p ns _ i o (ground arith)
]

loop_sends :
    (s : ProtocolState) (p : Packet) (n : ℕ) (a : SocketAddr) (ns : List ℕ)
    (actions : ProtocolActions)
    → contains ns n ≡ true
    → endpoint s.config n ≡ some a
    → (i : ℕ) × (get_elem? (foldl (send_to_neighbor s p) actions ns).outbound i
        ≡ some (record { packet = p; dst = a }))
unfolding send_to_neighbor
loop_sends s p n a [] actions h e = cc
loop_sends s p n a (m ∷ ns) actions h e = elim (Bool-cases (nat_beq m n)) [
  | inr apart ↦ loop_sends s p n a ns _ (ground arith) e
  | inl same ↦
      let q : m ≡ n = ground arith in
      let last = get_elem?-snoc actions.outbound (record { packet = p; dst = a }) in
      (
        length actions.outbound,
        loop_keeps s p ns _ (length actions.outbound) (record { packet = p; dst = a })
            (ground (arith, q)),
      )
]

-- The ends of a path.
get_elem?-last_but_one :
    (a b : ℕ) (rest : List ℕ)
    → get_elem? (a ∷ b ∷ rest) (length rest) ≡ some (last_but_one a b rest)
get_elem?-last_but_one a b [] = refl
get_elem?-last_but_one a b (x ∷ rest) = get_elem?-last_but_one b x rest

get_elem?-last :
    (b : ℕ) (rest : List ℕ) (d : ℕ)
    → last? (b ∷ rest) ≡ some d
    → get_elem? (b ∷ rest) (length rest) ≡ some d
get_elem?-last b [] d h = h
get_elem?-last b (x ∷ rest) d h = get_elem?-last x rest d h

module _ (nodes later : ℕ → ProtocolState) (addr : ℕ → SocketAddr) (clock clock' : ℕ → Clock) where
  -- Let a path of distinct nodes lead from the source over `b` to the destination, each node
  -- taking the request of the next discovery from the one before as new, with the labels `ls`,
  -- within the limit of hops, and let each node and the next know each other when the answer
  -- comes. Then starting a discovery sends the request to `b`, it reaches the destination, and
  -- the answer, with the whole path and all the labels, returns along the path and is taken at
  -- the source.
  pub discovery-Returns :
      (a b d limit retries_done : ℕ) (rest ls : List ℕ)
      → (nodes a).config.node_id ≡ a
      → IsSimple (a ∷ b ∷ rest)
      → IsWay nodes addr clock a (nodes a).next_request_id limit (a ∷ b ∷ rest) ls
      → IsTrace later addr clock' (a ∷ b ∷ rest)
      → last? (b ∷ rest) ≡ some d
      → length rest < limit
      → let s = nodes a in
        let q = first_rreq s d s.next_request_id (clock a 0) in
        let r = answer_to q (b ∷ rest) ls in
        ((i : ℕ) × (get_elem? (start_discovery s d retries_done (clock a)).1.outbound i
            ≡ some (record { packet = rreq q; dst = addr b })))
        × Arrives nodes addr clock r (addr (last_but_one a b rest)) b q
        × Returns later addr clock' r (last_but_one a b rest) (addr d)
  unfolding start_discovery first_rreq
  discovery-Returns a b d limit retries_done rest ls id simple way trace end hops =
      let s = nodes a in
      let q = first_rreq s d s.next_request_id (clock a 0) in
      let (_, _, _, hop, _) = way in
      let whole : s.config.node_id ∷ b ∷ rest ≡ a ∷ b ∷ rest = ap (λ y. y ∷ b ∷ rest) id in
      let start = ap (λ y. y ∷ []) id in
      (
        loop_sends s (rreq q) b (addr b) (logical_neighbors s.config) no_actions
            (neighbor_listed s.config b hop.sent) hop.reaches,
        request-Arrives nodes addr clock rest a b limit ls [] q id start start simple
            (subst (λ y. IsWay nodes addr clock y s.next_request_id limit (a ∷ b ∷ rest) ls)
              (sym id) way)
            end (omega arith),
        reply-Returns later addr clock' (answer_to q (b ∷ rest) ls) (length rest)
            (last_but_one a b rest) d (subst IsSimple (sym whole) simple)
            (subst (IsTrace later addr clock') (sym whole) trace) refl
            (subst (λ y. get_elem? y (length rest) ≡ some (last_but_one a b rest)) (sym whole)
              (get_elem?-last_but_one a b rest))
            (get_elem?-last b rest d end),
      )

-- ===== src/Network/ReplyRoute.antt =====
-- A reply goes back along the trace of its request to the source.
use dl_dsr_rs.Base.{
  ℕ, zero, suc, ◌≡◌, subst, true, false, inl, inr, Bool-cases, List, [], ◌∷◌, some, get_elem?,
  position, nat_eq, nat_beq, arith,
}
use dl_dsr_rs.Core.Socket.{SocketAddr}
use dl_dsr_rs.Core.Packet.{Rrep, rrep}
use dl_dsr_rs.Node.State.{Clock, ProtocolActions, ProtocolState}
use dl_dsr_rs.Node.Lookup.{
  is_logical_neighbor, node_id_by_endpoint, before, endpoint, previous_in_trace,
}
use dl_dsr_rs.Node.Rrep.{accept_rrep, forward_rrep, handle_rrep}
use dl_dsr_rs.Node.Reply.{ComesBack, validate_rrep_iff}
use dl_dsr_rs.Network.Paths.{IsSimple, contains-get_elem?, position-get_elem?, get_elem?-earlier}

-- The reply goes out once, and nothing else happens.
abbrev pub only_reply : Rrep → SocketAddr → ProtocolActions
only_reply r addr = record { outbound = record { packet = rrep r; dst = addr } ∷ []; events = [] }

-- On a simple path the first node is not a later one.
first_apart :
    (xs : List ℕ) (i a n : ℕ)
    → IsSimple xs
    → get_elem? xs 0 ≡ some a
    → get_elem? xs (suc i) ≡ some n
    → nat_beq n a ≡ false
first_apart [] i a n s h k = cc
first_apart (x ∷ xs) i a n s h k = elim (Bool-cases (nat_beq n a)) [
  | inr apart ↦ apart
  | inl same ↦ absurd (ground (arith, contains-get_elem? xs i n))
]

module _ (nodes : ℕ → ProtocolState) (addr : ℕ → SocketAddr) (clock : ℕ → Clock) where
  -- `a` and `b` know each other as neighbours, `a` knows the address of `b`, and `b` that of `a`.
  pub record Hears (a b : ℕ) : Type 0 where
    pub id : (nodes a).config.node_id ≡ a
    pub known : node_id_by_endpoint (nodes a).config (addr b) ≡ some b
    pub logical : is_logical_neighbor (nodes a).config b ≡ true
    pub back : is_logical_neighbor (nodes b).config a ≡ true
    pub reaches : endpoint (nodes b).config a ≡ some (addr a)

  -- Each node of the path and the next hear each other.
  abbrev pub IsTrace : List ℕ → Type 0
  IsTrace [] = Unit {0}
  IsTrace (a ∷ []) = Unit {0}
  IsTrace (a ∷ b ∷ r) = Hears a b × IsTrace (b ∷ r)

  IsTrace-Hears :
      (xs : List ℕ) (i a b : ℕ)
      → IsTrace xs
      → get_elem? xs i ≡ some a
      → get_elem? xs (suc i) ≡ some b
      → Hears a b
  IsTrace-Hears [] i a b t h k = cc
  IsTrace-Hears (x ∷ []) i a b t h k = cc
  IsTrace-Hears (x ∷ y ∷ xs) zero a b t h k =
      subst (λ u. Hears u b) (ground arith) (subst (Hears x) (ground arith) t.0)
  IsTrace-Hears (x ∷ y ∷ xs) (suc i) a b t h k = IsTrace-Hears (y ∷ xs) i a b t.1 h k

  -- The reply that `n` receives from the address `a` reaches its source, which takes it: each node
  -- on the way sends it on to the next, and does nothing else.
  pub data Returns (r : Rrep) : ℕ → SocketAddr → Type 0 where
    taken :
        {n : ℕ} {a : SocketAddr}
        → n ≡ r.src_node_id
        → handle_rrep (nodes n) a r (clock n) ≡ accept_rrep (nodes n) r (clock n)
        → Returns r n a
    relayed :
        {n m : ℕ} {a : SocketAddr}
        → (handle_rrep (nodes n) a r (clock n)).1 ≡ only_reply r (addr m)
        → Returns r m (addr n)
        → Returns r n a

  takes :
      (r : Rrep) (n b : ℕ) (a : SocketAddr)
      → ComesBack (nodes n).config a r.trace_path
      → (nodes n).config.node_id ≡ n
      → n ≡ r.src_node_id
      → handle_rrep (nodes n) a r (clock n) ≡ accept_rrep (nodes n) r (clock n)
  unfolding handle_rrep
  takes r n b a c id mine =
      let valid = (validate_rrep_iff (nodes n).config a r.trace_path).1 c in ground (arith, valid)

  relays :
      (r : Rrep) (n m i : ℕ) (a : SocketAddr)
      → ComesBack (nodes n).config a r.trace_path
      → (nodes n).config.node_id ≡ n
      → nat_beq n r.src_node_id ≡ false
      → position n r.trace_path ≡ some (suc i)
      → get_elem? r.trace_path i ≡ some m
      → endpoint (nodes n).config m ≡ some (addr m)
      → (handle_rrep (nodes n) a r (clock n)).1 ≡ only_reply r (addr m)
  unfolding handle_rrep forward_rrep previous_in_trace before
  relays r n m i a c id other at prev reaches =
      let valid = (validate_rrep_iff (nodes n).config a r.trace_path).1 c in ground (arith, valid)

  -- Let the trace of a reply be a path of distinct nodes that begins at the reply's source, where
  -- each node and the next know each other as neighbours, at their addresses. Then the reply that
  -- any node on it but the last receives from the next is relayed from node to node, unchanged,
  -- and taken at the source.
  pub reply-Returns :
      (r : Rrep) (i n b : ℕ)
      → IsSimple r.trace_path
      → IsTrace r.trace_path
      → get_elem? r.trace_path 0 ≡ some r.src_node_id
      → get_elem? r.trace_path i ≡ some n
      → get_elem? r.trace_path (suc i) ≡ some b
      → Returns r n (addr b)
  unfolding before
  reply-Returns r zero n b simple trace first here next =
      let h = IsTrace-Hears r.trace_path 0 n b trace here next in
      let id = h.id in
      taken (ground arith) (
        takes r n b (addr b)
          (record {
            next = b;
            place = 0;
            known = h.known;
            logical = h.logical;
            on_trace = rw id (position-get_elem? r.trace_path 0 n simple here);
            successor = next;
            reverse = tt;
          })
          id (ground arith))
  reply-Returns r (suc i) n b simple trace first here next =
      let h = IsTrace-Hears r.trace_path (suc i) n b trace here next in
      let id = h.id in
      let (m, prev) = get_elem?-earlier r.trace_path i n here in
      let g = IsTrace-Hears r.trace_path i m n trace prev here in
      let at = position-get_elem? r.trace_path (suc i) n simple here in
      relayed
        (relays r n m i (addr b)
          (record {
            next = b;
            place = suc i;
            known = h.known;
            logical = h.logical;
            on_trace = rw id at;
            successor = next;
            reverse = rw prev g.back;
          })
          id (first_apart r.trace_path i r.src_node_id n simple first here) at prev g.reaches)
        (reply-Returns r i m n simple trace first prev here)

-- ===== src/Network/RequestRoute.antt =====
-- A request goes out along a path of new nodes to its destination, which answers with that path.
use dl_dsr_rs.Base.{
  ℕ, ◌+◌, ◌≤◌, ◌<◌, ◌^◌, ◌≡◌, sym, ap, ◌∙◌, subst, true, false, inl, inr, Bool-cases, List, [], ◌∷◌,
  ◌++◌, some, get_elem?, last?, contains, length, nat_eq, nat_beq, arith,
}
use mathlib.Core.List.{append-nil, append_assoc}
use dl_dsr_rs.Core.Socket.{SocketAddr}
use dl_dsr_rs.Core.Packet.{Rreq, rreq, Rrep}
use dl_dsr_rs.Core.Seen.{mark_if_new}
use dl_dsr_rs.Node.State.{Clock, ProtocolState}
use dl_dsr_rs.Node.Lookup.{is_logical_neighbor, logical_neighbors, endpoint, previous_in_trace}
use dl_dsr_rs.Node.Rreq.{push_hop, next_rreq, handle_rreq}
use dl_dsr_rs.Node.Flood.{extended, handle_rreq-forwards, handle_rreq-answers}
use dl_dsr_rs.Network.Paths.{IsSimple, contains-last?}
use dl_dsr_rs.Network.Answer.{push_hop-end}
use dl_dsr_rs.Network.ReplyRoute.{only_reply}
use dl_dsr_rs.Network.Hops.{
  targets-get_elem?, copies-get_elem?, suffix-IsSimple, previous-snoc, HopLabel, HopLabel-LabelStep,
  neighbor_listed,
}

-- The reply to `q` that brings the rest of a way and of its labels.
abbrev pub answer_to : Rreq → List ℕ → List ℕ → Rrep
answer_to q rest ls = record {
  src_node_id = q.src_node_id;
  dst_node_id = q.dst_node_id;
  request_id = q.request_id;
  dsr_path = q.dsr_path ++ rest;
  dldsr_label_path = q.dldsr_label_path ++ ls;
  trace_path = q.trace_path ++ rest;
  created_at_millis = q.created_at_millis;
}

-- The last but one of a path of two or more.
abbrev pub last_but_one : ℕ → ℕ → List ℕ → ℕ
last_but_one a b [] = a
last_but_one a b (x ∷ rest) = last_but_one b x rest

module _ (nodes : ℕ → ProtocolState) (addr : ℕ → SocketAddr) (clock : ℕ → Clock) where
  -- `b` takes the request `id` of `src` from its neighbour `a` as new, with `ls` as the labels of
  -- the hop, and allows `limit` hops; each has the address of the other.
  pub record Hop (src id limit a b : ℕ) (ls : List ℕ) : Type 0 where
    pub node : (nodes b).config.node_id ≡ b
    pub logical : is_logical_neighbor (nodes b).config a ≡ true
    pub is_new :
        (mark_if_new
          (nodes b).seen_requests
          src
          id
          (clock b 0)
          (nodes b).config.seen_request_ttl_ms
          (nodes b).config.seen_request_max_entries).1
        ≡ true
    pub label : HopLabel (nodes b) a ls
    pub within : limit ≤ (nodes b).config.max_rreq_hops
    pub small : (nodes b).config.max_rreq_hops < 2 ^ 8
    pub back : endpoint (nodes b).config a ≡ some (addr a)
    pub sent : is_logical_neighbor (nodes a).config b ≡ true
    pub reaches : endpoint (nodes a).config b ≡ some (addr b)

  -- Each node of the path takes the request from the one before; `ls` are the labels of the hops.
  abbrev pub IsWay : ℕ → ℕ → ℕ → List ℕ → List ℕ → Type 0
  IsWay src id limit [] ls = ls ≡ []
  IsWay src id limit (a ∷ []) ls = ls ≡ []
  IsWay src id limit (a ∷ b ∷ rest) ls =
      (l : List ℕ) × (m : List ℕ) × (ls ≡ l ++ m)
      × Hop src id limit a b l
      × IsWay src id limit (b ∷ rest) m

  -- The request `q` that `n` receives reaches a node that answers it with the reply `r`, to the
  -- address `a`: each node on the way sends a copy of it, extended, to the next.
  pub data Arrives (r : Rrep) (a : SocketAddr) : ℕ → Rreq → Type 0 where
    answered :
        {n : ℕ} {q : Rreq}
        → (handle_rreq (nodes n) q (clock n)).1 ≡ only_reply r a
        → Arrives r a n q
    flooded :
        {n m : ℕ} {q : Rreq} (next : Rreq) (i : ℕ)
        → get_elem? (handle_rreq (nodes n) q (clock n)).1.outbound i
          ≡ some (record { packet = rreq next; dst = addr m })
        → Arrives r a m next
        → Arrives r a n q

  -- The path of the request once `b` is on it.
  pushed :
      (path trace : List ℕ) (a b : ℕ)
      → (nodes b).config.node_id ≡ b
      → path ≡ trace ++ (a ∷ [])
      → nat_beq a b ≡ false
      → push_hop (nodes b).config.node_id path ≡ path ++ (b ∷ [])
  pushed path trace a b id e apart = rw id (push_hop-end path trace a b e apart)

  -- On a simple path, what comes next is not what came before.
  apart_from :
      (trace rest : List ℕ) (a b : ℕ)
      → IsSimple (trace ++ (a ∷ b ∷ rest))
      → (nat_beq a b ≡ false) × (contains rest a ≡ false) × (contains rest b ≡ false)
  apart_from trace rest a b simple =
      let s = suffix-IsSimple trace (a ∷ b ∷ rest) simple in
      let first = s.0 in let second = s.1.0 in ground arith

  -- Let a request come to `b` from `a` with both its paths ending at `a`, and let the path from
  -- there over `b` to the destination be simple, its nodes each taking the request from the one
  -- before as new, with the labels `ls` and limits of hops that the way stays below. Then each
  -- node on the way sends, among its copies, one to the next, and the destination answers once,
  -- to the node before it, with the whole path and all the labels.
  pub request-Arrives :
      (rest : List ℕ) (a b limit : ℕ) (ls trace : List ℕ) (q : Rreq)
      → q.previous_hop ≡ a
      → q.dsr_path ≡ trace ++ (a ∷ [])
      → q.trace_path ≡ trace ++ (a ∷ [])
      → IsSimple (trace ++ (a ∷ b ∷ rest))
      → IsWay q.src_node_id q.request_id limit (a ∷ b ∷ rest) ls
      → last? (b ∷ rest) ≡ some q.dst_node_id
      → q.hop_count + length rest < limit
      → Arrives (answer_to q (b ∷ rest) ls) (addr (last_but_one a b rest)) b q
  request-Arrives [] a b limit ls trace q prev dsr_path trace_path simple way end hops =
      let (l, m, split, hop, over) = way in
      let s = nodes b in
      let id = hop.node in
      let (apart, _, _) = apart_from trace [] a b simple in
      let logical = subst (λ y. is_logical_neighbor s.config y ≡ true) (sym prev) hop.logical in
      let label = subst (λ y. HopLabel s y l) (sym prev) hop.label in
      let within = hop.within in
      let on_dsr = pushed q.dsr_path trace a b id dsr_path apart in
      let on_trace = pushed q.trace_path trace a b id trace_path apart in
      let labels : q.dldsr_label_path ++ l ≡ q.dldsr_label_path ++ ls =
        ap (λ y. q.dldsr_label_path ++ y) (sym (split ∙ ap (λ y. l ++ y) over ∙ append-nil l)) in
      let whole : q.trace_path ++ (b ∷ []) ≡ trace ++ (a ∷ b ∷ []) =
        ap (λ y. y ++ (b ∷ [])) trace_path ∙ append_assoc trace (a ∷ []) (b ∷ []) in
      let before_me : previous_in_trace (push_hop s.config.node_id q.trace_path) s.config.node_id
          ≡ some a =
        ap (λ y. previous_in_trace y s.config.node_id) (on_trace ∙ whole)
        ∙ ap (previous_in_trace (trace ++ (a ∷ b ∷ []))) id
        ∙ previous-snoc trace a b simple in
      let sent =
        handle_rreq-answers s q (clock b) (q.dldsr_label_path ++ l) logical (omega arith) hop.is_new
          (HopLabel-LabelStep s q l label) a (addr a) (ground arith) before_me hop.back in
      answered (
        sent ∙ (λ i.
          only_reply
            (record {
              src_node_id = q.src_node_id;
              dst_node_id = q.dst_node_id;
              request_id = q.request_id;
              dsr_path = on_dsr i;
              dldsr_label_path = labels i;
              trace_path = on_trace i;
              created_at_millis = q.created_at_millis;
            })
            (addr a)))
  request-Arrives (x ∷ rest) a b limit ls trace q prev dsr_path trace_path simple way end hops =
      let (l, m, split, hop, over) = way in
      let (_, _, _, onward, _) = over in
      let s = nodes b in
      let id = hop.node in
      let (apart, never_back, not_again) = apart_from trace (x ∷ rest) a b simple in
      let logical = subst (λ y. is_logical_neighbor s.config y ≡ true) (sym prev) hop.logical in
      let label = subst (λ y. HopLabel s y l) (sym prev) hop.label in
      let within = hop.within in
      let on_dsr = pushed q.dsr_path trace a b id dsr_path apart in
      let on_trace = pushed q.trace_path trace a b id trace_path apart in
      let far = contains-last? (x ∷ rest) q.dst_node_id end in
      let other : nat_beq s.config.node_id q.dst_node_id ≡ false =
        elim (Bool-cases (nat_beq s.config.node_id q.dst_node_id)) [
          | inr y ↦ y
          | inl same ↦ let e : b ≡ q.dst_node_id = ground arith in absurd (ground (arith, e))
        ] in
      let not_back : nat_beq x q.previous_hop ≡ false = ground arith in
      let (sent, count, _) =
        handle_rreq-forwards s q (clock b) (q.dldsr_label_path ++ l) logical (omega arith)
          hop.is_new (HopLabel-LabelStep s q l label) other hop.small in
      let (i, at) =
        targets-get_elem? s.config q.previous_hop x (addr x) (logical_neighbors s.config)
          (neighbor_listed s.config x onward.sent) onward.reaches not_back in
      let next = next_rreq s (extended s q (q.dldsr_label_path ++ l)) in
      let found = copies-get_elem? next _ i (addr x) at in
      let longer : trace ++ (a ∷ b ∷ x ∷ rest) ≡ (trace ++ (a ∷ [])) ++ (b ∷ x ∷ rest) =
        sym (append_assoc trace (a ∷ []) (b ∷ x ∷ rest)) in
      let there =
        request-Arrives rest b x limit m (trace ++ (a ∷ [])) next id
          (on_dsr ∙ ap (λ y. y ++ (b ∷ [])) dsr_path)
          (on_trace ∙ ap (λ y. y ++ (b ∷ [])) trace_path) (subst IsSimple longer simple) over end
          (rw count (omega arith)) in
      let same : answer_to next (x ∷ rest) m ≡ answer_to q (b ∷ x ∷ rest) ls = λ k. record {
        src_node_id = q.src_node_id;
        dst_node_id = q.dst_node_id;
        request_id = q.request_id;
        dsr_path =
            (ap (λ y. y ++ (x ∷ rest)) on_dsr ∙ append_assoc q.dsr_path (b ∷ []) (x ∷ rest)) k;
        dldsr_label_path =
            (append_assoc q.dldsr_label_path l m ∙ ap (λ y. q.dldsr_label_path ++ y) (sym split)) k;
        trace_path =
            (ap (λ y. y ++ (x ∷ rest)) on_trace ∙ append_assoc q.trace_path (b ∷ []) (x ∷ rest)) k;
        created_at_millis = q.created_at_millis;
      } in
      flooded next i (ap (λ y. get_elem? y.outbound i) sent ∙ found)
        (subst (λ r. Arrives r (addr (last_but_one b x rest)) x next) same there)

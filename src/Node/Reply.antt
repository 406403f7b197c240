-- ===== src/Node/Reply.antt =====
-- Route replies: exactly which of them a node takes, and what the source does with its own.
use dl_dsr_rs.Base.{
  ℕ, suc, ◌≡◌, refl, ◌↔◌, true, inl, inr, Option-cases, List, Option, none, some, nat_eq, get_elem?,
  position, ok, arith,
}
use dl_dsr_rs.Core.Socket.{SocketAddr}
use dl_dsr_rs.Core.Topology.{NodeConfig}
use dl_dsr_rs.Node.Lookup.{
  is_logical_neighbor, logical_neighbors, node_id_by_endpoint, are_adjacent, before,
}
use dl_dsr_rs.Node.Rrep.{check_reverse, validate_rrep}

-- To be adjacent to the node itself is to be its neighbour: the sender is looked at twice.
pub are_adjacent_self :
    (c : NodeConfig) (x : ℕ) → are_adjacent c c.node_id x ≡ is_logical_neighbor c x
unfolding are_adjacent is_logical_neighbor logical_neighbors
are_adjacent_self c x = ground arith

-- The node before this one on the trace, where there is one, is a neighbour.
abbrev pub IsNeighborIfAny : NodeConfig → Option ℕ → Type 0
IsNeighborIfAny c none = Unit {0}
IsNeighborIfAny c (some y) = is_logical_neighbor c y ≡ true

-- The reply comes from the node's successor on the trace, a neighbour; and the predecessor, where
-- there is one, is a neighbour too.
pub record ComesBack (c : NodeConfig) (sender : SocketAddr) (trace : List ℕ) : Type 0 where
  pub next : ℕ
  pub place : ℕ
  pub known : node_id_by_endpoint c sender ≡ some next
  pub logical : is_logical_neighbor c next ≡ true
  pub on_trace : position c.node_id trace ≡ some place
  pub successor : get_elem? trace (suc place) ≡ some next
  pub reverse : IsNeighborIfAny c (before place trace)

check_reverse_ok : (c : NodeConfig) (o : Option ℕ) → IsNeighborIfAny c o → check_reverse c o ≡ ok tt
unfolding check_reverse
check_reverse_ok c none h = refl
check_reverse_ok c (some y) h = ground (arith, are_adjacent_self c y)

check_reverse_sound :
    (c : NodeConfig) (o : Option ℕ) → check_reverse c o ≡ ok tt → IsNeighborIfAny c o
unfolding check_reverse
check_reverse_sound c none h = tt
check_reverse_sound c (some x) h = ground (arith, are_adjacent_self c x)

validate_rrep_sound :
    (c : NodeConfig) (sender : SocketAddr) (trace : List ℕ)
    → validate_rrep c sender trace ≡ ok tt
    → ComesBack c sender trace
unfolding validate_rrep
validate_rrep_sound c sender trace h = elim (Option-cases (node_id_by_endpoint c sender)) [
  | inl n ↦ absurd (ground arith)
  | inr (x, n) ↦ elim (Option-cases (position c.node_id trace)) [
    | inl p ↦ absurd (ground arith)
    | inr (i, p) ↦ elim (Option-cases (get_elem? trace (suc i))) [
      | inl q ↦ absurd (ground arith)
      | inr (y, q) ↦ record {
        next = x;
        place = i;
        known = n;
        logical = ground arith;
        on_trace = p;
        successor = ground arith;
        reverse = check_reverse_sound c (before i trace) (ground arith);
      }
    ]
  ]
]

validate_rrep_complete :
    (c : NodeConfig) (sender : SocketAddr) (trace : List ℕ)
    → ComesBack c sender trace
    → validate_rrep c sender trace ≡ ok tt
unfolding validate_rrep
validate_rrep_complete c sender trace b =
    let known = b.known in
    let logical = b.logical in
    let on_trace = b.on_trace in
    let successor = b.successor in
    ground (
      arith,
      known,
      logical,
      on_trace,
      successor,
      are_adjacent_self c b.next,
      check_reverse_ok c (before b.place trace) b.reverse,
    )

-- A reply passes the validation exactly where its sender is a neighbour and the successor of the
-- node on the trace, and the predecessor on the trace, where there is one, is a neighbour too.
pub validate_rrep_iff :
    (c : NodeConfig) (sender : SocketAddr) (trace : List ℕ)
    → (validate_rrep c sender trace ≡ ok tt) ↔ ComesBack c sender trace
validate_rrep_iff c sender trace =
    (validate_rrep_sound c sender trace, validate_rrep_complete c sender trace)

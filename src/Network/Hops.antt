-- ===== src/Network/Hops.antt =====
-- What one hop of a request does to the paths, and whom a node sends to.
use dl_dsr_rs.Base.{
  ℕ, zero, suc, ◌≡◌, refl, ap, true, false, inl, inr, Bool-cases, Option-cases, List, [], ◌∷◌, ◌++◌,
  some, get_elem?, last?-snoc, contains, length, nat_eq, nat_beq, arith,
}
use mathlib.Core.List.{append-nil, append_assoc}
use dl_dsr_rs.Core.Socket.{SocketAddr}
use dl_dsr_rs.Core.Packet.{dsr, dl_dsr, Rreq, rreq}
use dl_dsr_rs.Core.Tables.{label_assigned_by_neighbor}
use dl_dsr_rs.Core.Topology.{NodeConfig}
use dl_dsr_rs.Node.State.{ProtocolState}
use dl_dsr_rs.Node.Lookup.{
  is_logical_neighbor, logical_neighbors, endpoint, before, previous_in_trace,
}
use dl_dsr_rs.Node.Rreq.{push_hop}
use dl_dsr_rs.Node.Copies.{targets, copies}
use dl_dsr_rs.Node.Flood.{LabelStep}
use dl_dsr_rs.Network.Paths.{IsSimple, position-get_elem?}

-- A neighbour with an address, other than the previous hop, is among the targets.
pub targets-get_elem? :
    (c : NodeConfig) (previous n : ℕ) (a : SocketAddr) (ns : List ℕ)
    → contains ns n ≡ true
    → endpoint c n ≡ some a
    → nat_beq n previous ≡ false
    → (i : ℕ) × (get_elem? (targets c previous ns) i ≡ some a)
unfolding targets
targets-get_elem? c previous n a [] h e p = cc
targets-get_elem? c previous n a (m ∷ ns) h e p = elim (Bool-cases (nat_beq m n)) [
  | inl same ↦ let q : m ≡ n = ground arith in (0, ground (arith, q))
  | inr apart ↦
      let (i, found) = targets-get_elem? c previous n a ns (ground arith) e p in
      elim (Bool-cases (nat_beq m previous)) [
        | inl back ↦ (i, ground arith)
        | inr on ↦ elim (Option-cases (endpoint c m)) [
          | inl unknown ↦ (i, ground arith)
          | inr (x, known) ↦ (suc i, ground arith)
        ]
      ]
]

pub copies-get_elem? :
    (q : Rreq) (addrs : List SocketAddr) (i : ℕ) (a : SocketAddr)
    → get_elem? addrs i ≡ some a
    → get_elem? (copies (rreq q) addrs) i ≡ some (record { packet = rreq q; dst = a })
copies-get_elem? q [] i a h = cc
copies-get_elem? q (x ∷ addrs) zero a h = ground arith
copies-get_elem? q (x ∷ addrs) (suc i) a h = copies-get_elem? q addrs i a h

-- The places of a path that is put together.
pub get_elem?-middle : (xs ys : List ℕ) (a : ℕ) → get_elem? (xs ++ (a ∷ ys)) (length xs) ≡ some a
get_elem?-middle [] ys a = refl
get_elem?-middle (x ∷ xs) ys a = get_elem?-middle xs ys a

pub push_hop-snoc :
    (xs : List ℕ) (a b : ℕ) → nat_beq a b ≡ false → push_hop b (xs ++ (a ∷ [])) ≡ xs ++ (a ∷ b ∷ [])
unfolding push_hop
push_hop-snoc xs a b h = ground (arith, last?-snoc xs a, append_assoc xs (a ∷ []) (b ∷ []))

pub get_elem?-next :
    (xs ys : List ℕ) (a b : ℕ) → get_elem? (xs ++ (a ∷ b ∷ ys)) (suc (length xs)) ≡ some b
get_elem?-next [] ys a b = refl
get_elem?-next (x ∷ xs) ys a b = get_elem?-next xs ys a b

pub suffix-IsSimple : (xs ys : List ℕ) → IsSimple (xs ++ ys) → IsSimple ys
suffix-IsSimple [] ys h = h
suffix-IsSimple (x ∷ xs) ys h = suffix-IsSimple xs ys h.1

-- At the end of a trace, the node before is the last but one.
pub previous-snoc :
    (xs : List ℕ) (a b : ℕ)
    → IsSimple (xs ++ (a ∷ b ∷ []))
    → previous_in_trace (xs ++ (a ∷ b ∷ [])) b ≡ some a
unfolding previous_in_trace before
previous-snoc xs a b s =
    let at =
      position-get_elem? (xs ++ (a ∷ b ∷ [])) (suc (length xs)) b s (get_elem?-next xs [] a b) in
    ground (arith, at, get_elem?-middle xs (b ∷ []) a)

-- The labels that the hop from `a` adds at a node: none, or in the label mode the one that `a`
-- gave it.
abbrev pub HopLabel : ProtocolState → ℕ → List ℕ → Type 0
HopLabel s a ls = elim s.config.protocol_mode [
  | dsr ↦ ls ≡ []
  | dl_dsr ↦ (l : ℕ) × (label_assigned_by_neighbor s.labels a ≡ some l) × (ls ≡ l ∷ [])
]

pub HopLabel-LabelStep :
    (s : ProtocolState) (q : Rreq) (ls : List ℕ)
    → HopLabel s q.previous_hop ls
    → LabelStep s q (q.dldsr_label_path ++ ls)
HopLabel-LabelStep s q ls =
    elim s.config.protocol_mode
      as (λ m.
        (elim m [
          | dsr ↦ ls ≡ []
          | dl_dsr ↦
              (l : ℕ) × (label_assigned_by_neighbor s.labels q.previous_hop ≡ some l)
              × (ls ≡ l ∷ [])
        ])
        → elim m [
          | dsr ↦ q.dldsr_label_path ++ ls ≡ q.dldsr_label_path
          | dl_dsr ↦
              (l : ℕ) × (label_assigned_by_neighbor s.labels q.previous_hop ≡ some l)
              × (q.dldsr_label_path ++ ls ≡ q.dldsr_label_path ++ (l ∷ []))
        ]) [
          | dsr ↦ λ e. rw e (append-nil q.dldsr_label_path)
          | dl_dsr ↦ λ (l, g, e). (l, g, ap (λ x. q.dldsr_label_path ++ x) e)
        ]

pub neighbor_listed :
    (c : NodeConfig) (n : ℕ)
    → is_logical_neighbor c n ≡ true
    → contains (logical_neighbors c) n ≡ true
unfolding is_logical_neighbor
neighbor_listed c n h = h

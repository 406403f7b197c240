-- ===== src/Core/Topology/Chain.antt =====
-- The chain of `Topology::chain`: each node is found under its number, next to its neighbours.
use dl_dsr_rs.Base.{
  none, nat_eq, ◌==◌, ℕ, zero, suc, ◌+◌, ◌-◌, ◌%◌, ◌^◌, ◌≤◌, ◌<◌, ◌≡◌, refl, inl, inr, Bool-cases,
  [], ◌∷◌, ◌++◌, some, find?, map, nat_beq, ltb, add_u16, if◌then◌else◌, arith,
}
use dl_dsr_rs.Core.Socket.{v4, addr_eq}
use dl_dsr_rs.Core.Topology.{TopologyNode, count_up, localhost, chain_node, chain, node}

-- The node `i` of a chain whose numbers and ports are in range.
abbrev pub link : ℕ → ℕ → ℕ → TopologyNode
link nodes base_port i = record {
  node_id = i;
  endpoint = v4 localhost (base_port + i);
  neighbors =
      (if ltb 0 i then (i - 1) ∷ [] else []) ++ (if ltb (i + 1) nodes then (i + 1) ∷ [] else []);
}

chain_node-link :
    (nodes base_port i : ℕ)
    → i < nodes
    → base_port + nodes ≤ 2 ^ 16
    → chain_node nodes base_port i ≡ link nodes base_port i
unfolding chain_node add_u16
chain_node-link nodes base_port i lt small =
    let a : i % 2 ^ 32 ≡ i = omega arith in
    let b : (i - 1) % 2 ^ 32 ≡ i - 1 = omega arith in
    let c : (i + 1) % 2 ^ 32 ≡ i + 1 = omega arith in
    let d : (base_port + i % 2 ^ 16) % 2 ^ 16 ≡ base_port + i = omega arith in rw (a, b, c, d) refl

find?-count_up :
    (nodes base_port i k n : ℕ)
    → k ≤ i
    → i < k + n
    → k + n ≤ nodes
    → base_port + nodes ≤ 2 ^ 16
    → find? (λ x. nat_beq x.node_id i) (map (chain_node nodes base_port) (count_up k n))
      ≡ some (link nodes base_port i)
find?-count_up nodes base_port i k zero low high size small = absurd (omega arith)
find?-count_up nodes base_port i k (suc n) low high size small =
    let e = chain_node-link nodes base_port k (omega arith) small in
    elim (Bool-cases (nat_beq k i)) [
      | inl same ↦ let q : k ≡ i = ground arith in ground (arith, e, q)
      | inr apart ↦
          let rest =
            find?-count_up nodes base_port i (suc k) n (ground arith) (omega arith) (omega arith)
              small in
          ground (arith, e, rest)
    ]

-- In a chain whose last port fits in 16 bits, each number below the size finds its own node: at
-- the base port plus its number, next to the number before, where there is one, and the number
-- after, where there is one.
pub node-chain :
    (nodes base_port i : ℕ)
    → i < nodes
    → base_port + nodes ≤ 2 ^ 16
    → node (chain nodes base_port) i ≡ some (link nodes base_port i)
unfolding node chain
node-chain nodes base_port i lt small =
    find?-count_up nodes base_port i 0 nodes (omega arith) (omega arith) (omega arith) small

find?-count_up-none :
    (nodes base_port i k n : ℕ)
    → k + n ≤ i
    → k + n ≤ nodes
    → base_port + nodes ≤ 2 ^ 16
    → find? (λ x. nat_beq x.node_id i) (map (chain_node nodes base_port) (count_up k n)) ≡ none
find?-count_up-none nodes base_port i k zero high size small = refl
find?-count_up-none nodes base_port i k (suc n) high size small =
    let e = chain_node-link nodes base_port k (omega arith) small in
    let rest = find?-count_up-none nodes base_port i (suc k) n (omega arith) (omega arith) small in
    ground (arith, e, rest)

-- A number beyond the chain finds no node.
pub node-chain-none :
    (nodes base_port i : ℕ)
    → nodes ≤ i
    → base_port + nodes ≤ 2 ^ 16
    → node (chain nodes base_port) i ≡ none
unfolding node chain
node-chain-none nodes base_port i high small =
    find?-count_up-none nodes base_port i 0 nodes (omega arith) (omega arith) small

-- Each port of the chain finds its own node.
find?-endpoint :
    (nodes base_port i k n : ℕ)
    → k ≤ i
    → i < k + n
    → k + n ≤ nodes
    → base_port + nodes ≤ 2 ^ 16
    → find?
        (λ x. x.endpoint == v4 localhost (base_port + i))
        (map (chain_node nodes base_port) (count_up k n))
      ≡ some (link nodes base_port i)
find?-endpoint nodes base_port i k zero low high size small = absurd (omega arith)
find?-endpoint nodes base_port i k (suc n) low high size small =
    let e = chain_node-link nodes base_port k (omega arith) small in
    elim (Bool-cases (nat_beq k i)) [
      | inl same ↦ let q : k ≡ i = ground arith in ground (arith, e, q)
      | inr apart ↦
          let rest =
            find?-endpoint nodes base_port i (suc k) n (ground arith) (omega arith) (omega arith)
              small in
          ground (arith, e, rest)
    ]

pub endpoint-chain :
    (nodes base_port i : ℕ)
    → i < nodes
    → base_port + nodes ≤ 2 ^ 16
    → find? (λ x. x.endpoint == v4 localhost (base_port + i)) (chain nodes base_port).nodes
      ≡ some (link nodes base_port i)
unfolding chain
endpoint-chain nodes base_port i lt small =
    find?-endpoint nodes base_port i 0 nodes (omega arith) (omega arith) (omega arith) small

-- ===== src/Node/Config/Loaded.antt =====
-- What `load` makes of a chain: the node's own address, and neighbours that are mutual.
use dl_dsr_rs.Base.{
  ℕ, suc, ◌+◌, ◌≤◌, ◌<◌, ◌^◌, ◌≡◌, Bool, false, inl, inr, Bool-cases, ◌&&◌, ◌||◌, none, some, ok,
  nat_eq, nat_beq, ltb, arith,
}
use dl_dsr_rs.Core.Socket.{SocketAddr, v4, Text, addr_eq}
use dl_dsr_rs.Core.Topology.{chain, localhost}
use dl_dsr_rs.Core.Topology.Chain.{link, node-chain, node-chain-none, endpoint-chain}
use dl_dsr_rs.Node.Lookup.{logical_neighbors, is_logical_neighbor, node_id_by_endpoint}
use dl_dsr_rs.Node.Config.{Cli, Host, config_of, load_topology, load}

-- Next to each other on a chain.
abbrev pub next_to : ℕ → ℕ → ℕ → Bool
next_to nodes i j = ltb i nodes && (ltb j nodes && (nat_beq (suc i) j || nat_beq (suc j) i))

pub is_logical_neighbor-chain :
    (cli : Cli) (nodes base_port i j : ℕ) (a : SocketAddr)
    → base_port + nodes ≤ 2 ^ 16
    → is_logical_neighbor (config_of cli (chain nodes base_port) i a) j ≡ next_to nodes i j
unfolding is_logical_neighbor logical_neighbors
is_logical_neighbor-chain cli nodes base_port i j a small = elim (Bool-cases (ltb i nodes)) [
  | inl low ↦ let found = node-chain nodes base_port i (ground arith) small in ground (arith, found)
  | inr high ↦
      let found = node-chain-none nodes base_port i (ground arith) small in ground (arith, found)
]

pub next_to_comm : (nodes i j : ℕ) → next_to nodes i j ≡ next_to nodes j i
next_to_comm nodes i j = ground arith

pub next_to_self : (nodes i : ℕ) → next_to nodes i i ≡ false
next_to_self nodes i = ground arith

pub node_id_by_endpoint-chain :
    (cli : Cli) (nodes base_port i j : ℕ) (a : SocketAddr)
    → i < nodes
    → base_port + nodes ≤ 2 ^ 16
    → node_id_by_endpoint (config_of cli (chain nodes base_port) j a) (v4 localhost (base_port + i))
      ≡ some i
unfolding node_id_by_endpoint
node_id_by_endpoint-chain cli nodes base_port i j a lt small =
    let found = endpoint-chain nodes base_port i lt small in ground (arith, found)

-- Let the topology file read and parse as a chain whose last port fits in 16 bits, with no
-- configuration file and no address given, and let the node be one of the chain. Then the node
-- gets its address from the chain and the defaults otherwise, and its neighbours are the numbers
-- before and after it on the chain.
pub load-chain :
    (host : Host) (cli : Cli) (path text : Text) (nodes base_port i : ℕ)
    → cli.config ≡ none
    → cli.topology ≡ some path
    → host.read_to_string path ≡ ok text
    → host.topology_from_str text ≡ ok (chain nodes base_port)
    → cli.node_id ≡ some i
    → cli.bind ≡ none
    → i < nodes
    → base_port + nodes ≤ 2 ^ 16
    → (load host cli ≡ ok (config_of cli (chain nodes base_port) i (v4 localhost (base_port + i))))
      × (logical_neighbors (config_of cli (chain nodes base_port) i (v4 localhost (base_port + i)))
          ≡ (link nodes base_port i).neighbors)
unfolding load load_topology logical_neighbors
load-chain host cli path text nodes base_port i no_file where_ read parsed id unbound lt small =
    let found = node-chain nodes base_port i lt small in
    (ground (arith, found), ground (arith, found))

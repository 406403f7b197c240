-- ===== src/Node/Fate.antt =====
-- What a node does with a payload on its way: it hands it over, passes it on, or drops and counts it.
use dl_dsr_rs.Base.{
  ◌⊎◌, subst, ℕ, ◌≡◌, refl, true, false, not, ◌&&◌, inl, inr, Bool-cases, Option-cases,
  Result-cases, [], ◌∷◌, some, nat_eq, nat_beq, get_elem?, is_some, All, add_u64, arith, contains,
  List,
}
use dl_dsr_rs.Core.Socket.{SocketAddr}
use dl_dsr_rs.Core.Packet.{dsr, dl_dsr, mode_beq, DataPacket}
use dl_dsr_rs.Core.Tables.{NeighborEntry, neighbor_by_label}
use dl_dsr_rs.Core.Topology.{NodeConfig}
use dl_dsr_rs.Node.State.{Clock, Reason, data_dropped, route_error, ProtocolActions, ProtocolState}
use dl_dsr_rs.Node.Lookup.{is_logical_neighbor, logical_neighbors, node_id_by_endpoint, endpoint}
use dl_dsr_rs.Node.Origin.{drop_data}
use dl_dsr_rs.Node.Data.{
  is_at, validate_data_delivery, deliver_data, pass_on, forward_dsr, forward_dldsr, forward_data,
  handle_data,
}
use dl_dsr_rs.Network.Journey.{at_cursor, only_send, only_deliver}

-- `addr` is the address of the neighbour `n`: from the topology, or from the table of labels.
abbrev pub LeadsTo : ProtocolState → ℕ → SocketAddr → Type 0
LeadsTo s n addr =
    (is_logical_neighbor s.config n ≡ true)
    × ((endpoint s.config n ≡ some addr)
        ⊎ ((l : ℕ) × (e : NeighborEntry) × (neighbor_by_label s.neighbors l ≡ some e)
            × (e.node_id ≡ n)
            × (e.endpoint ≡ addr)))

-- The one thing that happens to the payload of `p` at `s`, with its counter and its actions.
pub data Fate (s : ProtocolState) (p : DataPacket) : ProtocolState × ProtocolActions → Type 0 where
  delivered :
      {r : ProtocolState × ProtocolActions}
      → p.dst_node_id ≡ s.config.node_id
      → r.1 ≡ only_deliver s.config.node_id p
      → r.0.metrics.data_delivered ≡ add_u64 s.metrics.data_delivered 1
      → Fate s p r
  passed :
      {r : ProtocolState × ProtocolActions} (n : ℕ) (addr : SocketAddr)
      → LeadsTo s n addr
      → nat_beq p.dst_node_id s.config.node_id ≡ false
      → r.1 ≡ only_send (at_cursor p (add_u64 p.route_cursor 1)) addr
      → r.0.metrics.data_forwarded ≡ add_u64 s.metrics.data_forwarded 1
      → Fate s p r
  dropped :
      {r : ProtocolState × ProtocolActions} (reason : Reason)
      → r.1 ≡ record {
        outbound = [];
        events =
            data_dropped s.config.node_id p.dst_node_id reason
            ∷ route_error s.config.node_id p.dst_node_id reason
            ∷ [];
      }
      → r.0.metrics.data_dropped ≡ add_u64 s.metrics.data_dropped 1
      → Fate s p r

drop_data-Fate :
    (s : ProtocolState) (p : DataPacket) (reason : Reason)
    → Fate s p (drop_data s p.dst_node_id reason)
unfolding drop_data
drop_data-Fate s p reason = dropped reason refl refl

pass_on-Fate :
    (s : ProtocolState) (p : DataPacket) (n : ℕ) (addr : SocketAddr)
    → LeadsTo s n addr
    → nat_beq p.dst_node_id s.config.node_id ≡ false
    → Fate s p (pass_on s p addr)
unfolding pass_on
pass_on-Fate s p n addr to other = passed n addr to other refl refl

deliver_data-Fate :
    (s : ProtocolState) (sender : ℕ) (p : DataPacket) (clock : Clock)
    → p.dst_node_id ≡ s.config.node_id
    → Fate s p (deliver_data s sender p clock)
unfolding deliver_data
deliver_data-Fate s sender p clock mine =
    elim (Result-cases (validate_data_delivery s.config sender p)) [
      | inr (reason, v) ↦ rw (v, deliver_data) (drop_data-Fate s p reason)
      | inl (_, v) ↦ delivered mine (ground arith) (ground arith)
    ]

-- Each neighbour of the node has an address in the topology.
abbrev pub HasEndpoints : NodeConfig → Type 0
HasEndpoints c = All (λ n. is_some (endpoint c n) ≡ true) (logical_neighbors c)

All-contains : (P : ℕ → Type 0) (x : ℕ) (xs : List ℕ) → All P xs → contains xs x ≡ true → P x
All-contains P x [] h c = cc
All-contains P x (y ∷ ys) h c = elim (Bool-cases (nat_beq y x)) [
  | inl e ↦ subst P (ground arith) h.0
  | inr e ↦ All-contains P x ys h.1 (ground arith)
]

neighbor-endpoint :
    (c : NodeConfig) (n : ℕ)
    → HasEndpoints c
    → is_logical_neighbor c n ≡ true
    → is_some (endpoint c n) ≡ true
unfolding is_logical_neighbor
neighbor-endpoint c n h l = All-contains (λ x. is_some (endpoint c x) ≡ true) n _ h l

module _ (s : ProtocolState) (p : DataPacket) where
  forward_dsr-Fate :
      HasEndpoints s.config
      → nat_beq p.dst_node_id s.config.node_id ≡ false
      → Fate s p (forward_dsr s p)
  unfolding forward_dsr
  forward_dsr-Fate known other =
      elim (Bool-cases (is_at (get_elem? p.dsr_path p.route_cursor) s.config.node_id)) [
        | inr away ↦ rw (away, forward_dsr) (drop_data-Fate s p _)
        | inl here ↦ elim (Option-cases (get_elem? p.dsr_path (add_u64 p.route_cursor 1))) [
          | inl exhausted ↦ rw (here, exhausted, forward_dsr) (drop_data-Fate s p _)
          | inr (next, at) ↦ elim (Bool-cases (is_logical_neighbor s.config next)) [
            | inr stranger ↦ rw (here, at, stranger, forward_dsr) (drop_data-Fate s p _)
            | inl logical ↦ elim (Option-cases (endpoint s.config next)) [
              | inl lost ↦ absurd (ground (arith, neighbor-endpoint s.config next known logical))
              | inr (addr, found) ↦
                  rw (here, at, logical, found, forward_dsr)
                    (pass_on-Fate s p next addr (logical, inl found) other)
            ]
          ]
        ]
      ]

  forward_dldsr-Fate : nat_beq p.dst_node_id s.config.node_id ≡ false → Fate s p (forward_dldsr s p)
  unfolding forward_dldsr
  forward_dldsr-Fate other = elim (Option-cases (get_elem? p.dldsr_label_path p.route_cursor)) [
    | inl exhausted ↦ rw (exhausted, forward_dldsr) (drop_data-Fate s p _)
    | inr (label, at) ↦ elim (Option-cases (neighbor_by_label s.neighbors label)) [
      | inl unknown ↦ rw (at, unknown, forward_dldsr) (drop_data-Fate s p _)
      | inr (entry, found) ↦ elim (Bool-cases (is_logical_neighbor s.config entry.node_id)) [
        | inr stranger ↦ rw (at, found, stranger, forward_dldsr) (drop_data-Fate s p _)
        | inl logical ↦
            rw (at, found, logical, forward_dldsr)
              (pass_on-Fate s p entry.node_id entry.endpoint
                (logical, inr (label, entry, found, refl, refl)) other)
      ]
    ]
  ]

  forward_data-Fate :
      HasEndpoints s.config
      → nat_beq p.dst_node_id s.config.node_id ≡ false
      → Fate s p (forward_data s p)
  unfolding forward_data
  forward_data-Fate known other =
      elim p.protocol_mode
        as (λ m. Fate s p (elim m [ dsr ↦ forward_dsr s p | dl_dsr ↦ forward_dldsr s p ])) [
          | dsr ↦ forward_dsr-Fate known other
          | dl_dsr ↦ forward_dldsr-Fate other
        ]

  -- Where each neighbour of the node has an address in the topology, one of these happens to a
  -- payload, in either mode: it is for the node, handed over and counted as delivered; it is for
  -- another, sent on once, to a neighbour at its address in the topology or in the table of
  -- labels, with its cursor one further, and counted as forwarded; or it is dropped, with both
  -- events for the reason, and counted as dropped.
  pub handle_data-Fate :
      (sender : SocketAddr) (clock : Clock)
      → HasEndpoints s.config
      → Fate s p (handle_data s sender p clock)
  unfolding handle_data
  handle_data-Fate sender clock known =
      elim (Bool-cases
        (s.config.strict_protocol_mode && not (mode_beq p.protocol_mode s.config.protocol_mode))) [
          | inl strict ↦ rw (strict, handle_data) (drop_data-Fate s p _)
          | inr agreed ↦ elim (Option-cases (node_id_by_endpoint s.config sender)) [
            | inl unknown ↦ rw (agreed, unknown, handle_data) (drop_data-Fate s p _)
            | inr (n, found) ↦ elim (Bool-cases (is_logical_neighbor s.config n)) [
              | inr stranger ↦ rw (agreed, found, stranger, handle_data) (drop_data-Fate s p _)
              | inl logical ↦ elim (Bool-cases (nat_beq p.dst_node_id s.config.node_id)) [
                | inl mine ↦
                    rw (agreed, found, logical, mine, handle_data)
                      (deliver_data-Fate s n p clock (ground arith))
                | inr other ↦
                    rw (agreed, found, logical, other, handle_data) (forward_data-Fate known other)
              ]
            ]
          ]
        ]

-- ===== src/Network/Truth.antt =====
-- What is true of labels, over a relation `leads`: `leads a l b` says that at the node `a` the
-- label `l` means `b`. A route, a packet or a state is true when each label in it leads from a node
-- of its path to the next, and the path meets its destination at the end alone.
pub mod Sends
pub mod Requests
pub mod Tables
pub mod Keeps
use dl_dsr_rs.Base.{
  ℕ, ◌≡◌, refl, sym, subst, List, [], ◌∷◌, ◌++◌, some, get_elem?, last?, last?-snoc, All, All-map,
  contains, false, ◌⊎◌, arith,
}
use dl_dsr_rs.Network.Paths.{MeetsLast}
use dl_dsr_rs.Core.Socket.{SocketAddr}
use dl_dsr_rs.Core.Packet.{
  Hello, HelloReply, Packet, hello, hello_reply, rreq, rrep, data_packet, ack, error_packet,
}
use dl_dsr_rs.Core.Tables.{NeighborEntry, LabelEntry}
use dl_dsr_rs.Core.Routes.{RouteEntry}
use dl_dsr_rs.Node.State.{OutboundPacket, ProtocolState}

-- `leads a l b`
abbrev pub Leads : Type 1
Leads = ℕ → ℕ → ℕ → Type 0

module _ (leads : Leads) where
  -- The labels lead along the path, one for each hop.
  abbrev pub LabelPath : List ℕ → List ℕ → Type 0
  LabelPath (a ∷ b ∷ r) (l ∷ ls) = leads a l b × LabelPath (b ∷ r) ls
  LabelPath (a ∷ []) [] = Unit {0}
  LabelPath _ _ = ⊥

  -- The path goes from `src` to `dst`, and the labels lead along it.
  pub record IsTrueWay (src dst : ℕ) (path labels : List ℕ) : Type 0 where
    pub first : get_elem? path 0 ≡ some src
    pub last : last? path ≡ some dst
    pub led : LabelPath path labels

  -- The way goes to `dst` and does not pass it, where it does not start there.
  pub record IsTrueRoute (src dst : ℕ) (path labels : List ℕ) : Type 0 where
    pub way : IsTrueWay src dst path labels
    pub once : (src ≡ dst) ⊎ MeetsLast dst path

  -- A label that leads from the end of the path takes it one further.
  pub LabelPath-snoc :
      (path labels : List ℕ) (a l b : ℕ)
      → LabelPath path labels
      → last? path ≡ some a
      → leads a l b
      → LabelPath (path ++ (b ∷ [])) (labels ++ (l ∷ []))
  LabelPath-snoc [] labels a l b h e k = elim h [ ]
  LabelPath-snoc (x ∷ []) [] a l b h e k =
      let q : x ≡ a = ground arith in (subst (λ u. leads u l b) (sym q) k, tt)
  LabelPath-snoc (x ∷ []) (m ∷ ms) a l b h e k = elim h [ ]
  LabelPath-snoc (x ∷ y ∷ path) [] a l b h e k = elim h [ ]
  LabelPath-snoc (x ∷ y ∷ path) (m ∷ ms) a l b h e k =
      (h.0, LabelPath-snoc (y ∷ path) ms a l b h.1 e k)

  pub IsTrueWay-snoc :
      (src a l b : ℕ) (path labels : List ℕ)
      → IsTrueWay src a path labels
      → leads a l b
      → IsTrueWay src b (path ++ (b ∷ [])) (labels ++ (l ∷ []))
  IsTrueWay-snoc src a l b path labels h k = record {
    first = first_stays path h.first;
    last = last?-snoc path b;
    led = LabelPath-snoc path labels a l b h.led h.last k;
  }
    where
      first_stays :
          (path : List ℕ) → get_elem? path 0 ≡ some src → get_elem? (path ++ (b ∷ [])) 0 ≡ some src
      first_stays [] h = cc
      first_stays (x ∷ path) h = h

  module _ (addr : ℕ → SocketAddr) where
    -- What a packet from the address `a` says is true.
    abbrev pub IsTruePacket : SocketAddr → Packet → Type 0
    IsTruePacket a (hello h) = a ≡ addr h.src_node_id
    IsTruePacket a (hello_reply r) = leads r.src_node_id r.assigned_label r.dst_node_id
    IsTruePacket a (rreq q) =
        IsTrueWay q.src_node_id q.previous_hop q.dsr_path q.dldsr_label_path
        × ((q.src_node_id ≡ q.dst_node_id) ⊎ (contains q.dsr_path q.dst_node_id ≡ false))
    IsTruePacket a (rrep r) = IsTrueRoute r.src_node_id r.dst_node_id r.dsr_path r.dldsr_label_path
    IsTruePacket a (data_packet p) =
        IsTrueRoute p.src_node_id p.dst_node_id p.dsr_path p.dldsr_label_path
    IsTruePacket a (ack _) = Unit
    IsTruePacket a (error_packet _) = Unit

    -- What a node at the address `here` sends is true.
    abbrev pub AreTrue : SocketAddr → List OutboundPacket → Type 0
    AreTrue here = All (λ o. IsTruePacket here o.packet)

    -- A known neighbour stands with its address.
    abbrev pub IsAt : ℕ × NeighborEntry → Type 0
    IsAt e = e.1.endpoint ≡ addr e.0

    -- A label that the node `n` was given leads to it.
    abbrev pub IsGiven : ℕ → ℕ × LabelEntry → Type 0
    IsGiven n e = leads e.0 e.1.label_assigned_by_neighbor_to_me n

    -- The routes that `n` caches for a destination are true.
    abbrev pub AreRoutes : ℕ → ℕ × List RouteEntry → Type 0
    AreRoutes n e = All (λ r. IsTrueRoute n e.0 r.dsr_path r.dldsr_label_path) e.1

    -- What a node knows is true.
    pub record Knows (s : ProtocolState) : Type 0 where
      pub at : All IsAt s.neighbors.entries
      pub given : All (IsGiven s.config.node_id) s.labels.entries
      pub routes : All (AreRoutes s.config.node_id) s.routes.routes

-- Where labels lead more often, no less is true.
module _ (leads more : Leads) (weaken : (a l b : ℕ) → leads a l b → more a l b)
    (addr : ℕ → SocketAddr) where
  LabelPath-more : (path labels : List ℕ) → LabelPath leads path labels → LabelPath more path labels
  LabelPath-more [] labels h = elim h [ ]
  LabelPath-more (x ∷ []) [] h = tt
  LabelPath-more (x ∷ []) (l ∷ ls) h = elim h [ ]
  LabelPath-more (x ∷ y ∷ path) [] h = elim h [ ]
  LabelPath-more (x ∷ y ∷ path) (l ∷ ls) h = (weaken x l y h.0, LabelPath-more (y ∷ path) ls h.1)

  pub IsTrueWay-more :
      (src dst : ℕ) (path labels : List ℕ)
      → IsTrueWay leads src dst path labels
      → IsTrueWay more src dst path labels
  IsTrueWay-more src dst path labels h = record {
    first = h.first;
    last = h.last;
    led = LabelPath-more path labels h.led;
  }

  pub IsTrueRoute-more :
      (src dst : ℕ) (path labels : List ℕ)
      → IsTrueRoute leads src dst path labels
      → IsTrueRoute more src dst path labels
  IsTrueRoute-more src dst path labels h = record {
    way = IsTrueWay-more src dst path labels h.way;
    once = h.once;
  }

  pub IsTruePacket-more :
      (a : SocketAddr) (p : Packet) → IsTruePacket leads addr a p → IsTruePacket more addr a p
  IsTruePacket-more a (hello _) h = h
  IsTruePacket-more a (hello_reply r) h = weaken r.src_node_id r.assigned_label r.dst_node_id h
  IsTruePacket-more a (rreq q) h = (IsTrueWay-more _ _ _ _ h.0, h.1)
  IsTruePacket-more a (rrep r) h = IsTrueRoute-more _ _ _ _ h
  IsTruePacket-more a (data_packet p) h = IsTrueRoute-more _ _ _ _ h
  IsTruePacket-more a (ack _) h = tt
  IsTruePacket-more a (error_packet _) h = tt

  pub Knows-more : (s : ProtocolState) → Knows leads addr s → Knows more addr s
  Knows-more s h = record {
    at = h.at;
    given =
        All-map (IsGiven leads addr s.config.node_id) (IsGiven more addr s.config.node_id)
          s.labels.entries (λ e k. weaken _ _ _ k) h.given;
    routes =
        All-map (AreRoutes leads addr s.config.node_id) (AreRoutes more addr s.config.node_id)
          s.routes.routes (λ e k. All-map _ _ e.1 (λ r t. IsTrueRoute-more _ _ _ _ t) k) h.routes;
  }

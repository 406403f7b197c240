-- ===== src/Network/System/Delivery.antt =====
-- From any state that a network reaches, a payload for which a route is served arrives.
use dl_dsr_rs.Base.{
  inl, inr, ℕ, ◌<◌, ◌^◌, ◌≡◌, refl, sym, ap, ◌∙◌, subst, true, false, List, [], ◌∷◌, some, last?,
  length, nat_eq, nat_beq, arith,
}
use dl_dsr_rs.HashMap.Everywhere.{get-All}
use dl_dsr_rs.Core.Socket.{SocketAddr}
use dl_dsr_rs.Core.Packet.{Codec}
use dl_dsr_rs.Core.Tables.{NeighborEntry}
use dl_dsr_rs.Core.Tables.Labels.{neighbor_by_label_iff}
use dl_dsr_rs.Core.Topology.{NodeConfig}
use dl_dsr_rs.Core.Routes.{RouteEntry, shortest}
use dl_dsr_rs.Node.State.{Clock, later, ProtocolState}
use dl_dsr_rs.Node.Lookup.{is_logical_neighbor, node_id_by_endpoint}
use dl_dsr_rs.Node.Origin.{lookup_packet}
use dl_dsr_rs.Node.Discovery.{discover_and_send_data}
use dl_dsr_rs.Network.Paths.{MeetsLast}
use dl_dsr_rs.Network.Journey.{at_cursor, only_send, Delivers}
use dl_dsr_rs.Network.LabelRoute.{LabelLinks, IsLabelRoute, delivers_from, label_route_delivers}
use dl_dsr_rs.Network.Truth.{LabelPath, IsTrueRoute, IsAt}
use dl_dsr_rs.Network.System.{System, Reach, Later, Reach-Later, IsFleet, Means}
use dl_dsr_rs.Network.System.Truths.{IsSound, Reach-IsSound, Means-Later, shortest_is_true}

module _ (c : Codec) (conf : ℕ → NodeConfig) (addr : ℕ → SocketAddr) (fleet : IsFleet conf)
    (both_ways : (a b : ℕ) → is_logical_neighbor (conf a) b ≡ is_logical_neighbor (conf b) a)
    (located : (a b : ℕ)
      → is_logical_neighbor (conf b) a ≡ true
      → node_id_by_endpoint (conf b) (addr a) ≡ some a)
    (t : ℕ → System) (h : (n : ℕ) → IsSound c conf addr fleet (t n)) (clock : ℕ → Clock) where
  -- Each node in a state of its own.
  abbrev nodes : ℕ → ProtocolState
  nodes n = (t n).node n

  -- A label that means a neighbour links the node to it.
  Means-LabelLinks : (a l b : ℕ) → Means (t a) a l b → LabelLinks nodes addr clock a b l
  Means-LabelLinks a l b (e, found, is_b) =
      let own = ((h a).valid a).labelled in
      let (under, _) = (neighbor_by_label_iff (nodes a).neighbors l e own.own).0 found in
      let near =
        get-All (λ (x : ℕ × NeighborEntry). is_logical_neighbor (nodes a).config x.0 ≡ true)
          e.node_id e (nodes a).neighbors.entries own.logical under in
      let at =
        get-All (IsAt (Means (t a)) addr) e.node_id e (nodes a).neighbors.entries ((h a).knows a).at
          under in
      let near_b = subst (λ m. is_logical_neighbor (nodes a).config m ≡ true) is_b near in
      let near_conf = subst (λ k. is_logical_neighbor k b ≡ true) ((h a).config a) near_b in
      let back = sym (both_ways a b) ∙ near_conf in
      let config = (h b).config b in
      record {
        entry = e;
        found = found;
        is_next = is_b;
        reaches = at ∙ ap addr is_b;
        logical = near_b;
        accepts = record {
          id = ap (λ (k : NodeConfig). k.node_id) config ∙ fleet.id b;
          mode = ap (λ (k : NodeConfig). k.protocol_mode) config ∙ fleet.mode b;
          sender_known = ap (λ k. node_id_by_endpoint k (addr a)) config ∙ located a b back;
          sender_logical = ap (λ k. is_logical_neighbor k a) config ∙ back;
        };
      }

  LabelPath-IsLabelRoute :
      (s : System) (path labels : List ℕ)
      → ((a l b : ℕ) → Means s a l b → Means (t a) a l b)
      → LabelPath (Means s) path labels
      → IsLabelRoute nodes addr clock path labels
  LabelPath-IsLabelRoute s [] labels kept p = elim p [ ]
  LabelPath-IsLabelRoute s (x ∷ []) [] kept p = tt
  LabelPath-IsLabelRoute s (x ∷ []) (l ∷ ls) kept p = elim p [ ]
  LabelPath-IsLabelRoute s (x ∷ y ∷ path) [] kept p = elim p [ ]
  LabelPath-IsLabelRoute s (x ∷ y ∷ path) (l ∷ ls) kept p =
      (Means-LabelLinks x l y (kept x l y p.0), LabelPath-IsLabelRoute s (y ∷ path) ls kept p.1)

module _ (s : System) where
  split_route :
      (n dst : ℕ) (path labels : List ℕ)
      → IsTrueRoute (Means s) n dst path labels
      → nat_beq n dst ≡ false
      → (b : ℕ) × (rest : List ℕ) × (l : ℕ) × (ls : List ℕ) × (path ≡ n ∷ b ∷ rest)
        × (labels ≡ l ∷ ls)
        × (last? (b ∷ rest) ≡ some dst)
        × MeetsLast dst (b ∷ rest)
        × LabelPath (Means s) (n ∷ b ∷ rest) (l ∷ ls)
  split_route n dst [] labels t far = elim t.way.led [ ]
  split_route n dst (x ∷ []) labels t far =
      let first = t.way.first in let last = t.way.last in absurd (ground arith)
  split_route n dst (x ∷ y ∷ path) [] t far = elim t.way.led [ ]
  split_route n dst (x ∷ y ∷ path) (l ∷ ls) t far =
      let first = t.way.first in
      let e : x ≡ n = ground arith in
      (
        y,
        path,
        l,
        ls,
        ap (λ z. z ∷ y ∷ path) e,
        refl,
        t.way.last,
        elim t.once [ inl here ↦ absurd (ground arith) | inr once ↦ once.1 ],
        subst (λ z. LabelPath (Means s) (z ∷ y ∷ path) (l ∷ ls)) e t.way.led,
      )

module _ (c : Codec) (conf : ℕ → NodeConfig) (addr : ℕ → SocketAddr) (fleet : IsFleet conf)
    (both_ways : (a b : ℕ) → is_logical_neighbor (conf a) b ≡ is_logical_neighbor (conf b) a)
    (located : (a b : ℕ)
      → is_logical_neighbor (conf b) a ≡ true
      → node_id_by_endpoint (conf b) (addr a) ≡ some a) where
  -- Let each node have its own number, run in the label mode and be no neighbour of itself, let
  -- neighbours be mutual, and let each node find the address of each neighbour. Then in any state
  -- that the network reaches, where a node has a route of fewer than 2^64 labels to another at
  -- the time of the lookup, it sends the payload, unchanged, in one packet to the next node, and
  -- that packet is relayed from node to node and handed over at its destination, whatever later
  -- states of the network those nodes are in, one for each node, when the packet comes.
  pub served_route_delivers :
      {s : System} (n dst : ℕ) (payload : List ℕ) (r : RouteEntry) (time : Clock)
      (clock : ℕ → Clock) (t : ℕ → System)
      → Reach c conf addr s
      → ((m : ℕ) → Later c conf addr s (t m))
      → shortest (s.node n).routes dst (time 0) ≡ some r
      → nat_beq n dst ≡ false
      → length r.dldsr_label_path < 2 ^ 64
      → (b : ℕ) × let p = at_cursor (lookup_packet (s.node n) dst payload r (time 1)) 1 in
          ((discover_and_send_data (s.node n) dst payload time).1 ≡ only_send p (addr b))
          × (p.payload ≡ payload)
          × Delivers (λ m. (t m).node m) addr clock b (addr n) p dst
  unfolding discover_and_send_data lookup_packet
  served_route_delivers {s} n dst payload r time clock t reached after served far short =
      let h = Reach-IsSound c conf addr fleet reached in
      let true_route = shortest_is_true c conf addr fleet n dst (time 0) r reached served in
      let (b, rest, l, ls, path, labels, end, once, led) =
        split_route s n dst r.dsr_path r.dldsr_label_path true_route far in
      let config = h.config n in
      let mode = ap (λ (k : NodeConfig). k.protocol_mode) config ∙ fleet.mode n in
      let small = subst (λ x. length x < 2 ^ 64) labels short in
      let now_links =
        LabelPath-IsLabelRoute c conf addr fleet both_ways located (λ _. s) (λ _. h) clock s
          (n ∷ b ∷ rest) (l ∷ ls) (λ a l b m. m) led in
      let then_links =
        LabelPath-IsLabelRoute c conf addr fleet both_ways located t
          (λ m. Reach-IsSound c conf addr fleet (Reach-Later c conf addr reached (after m))) clock s
          (n ∷ b ∷ rest) (l ∷ ls) (λ a l b. Means-Later c conf addr fleet a l b reached (after a))
          led in
      let (sent, same, _) =
        label_route_delivers s.node addr clock n b dst l rest ls payload r (later time) labels
          (ap (λ (k : NodeConfig). k.node_id) config ∙ fleet.id n) mode once now_links end small in
      let p = at_cursor (lookup_packet (s.node n) dst payload r (time 1)) 1 in
      let travels =
        delivers_from (λ m. (t m).node m) addr clock rest ls n b 1 dst p once then_links.0.accepts
          then_links.1 (rw labels refl) (rw labels (omega arith)) mode refl refl end
          (rw labels small) in
      (b, (rw (served, discover_and_send_data) sent, same, travels))

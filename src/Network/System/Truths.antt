-- ===== src/Network/System/Truths.antt =====
-- In every state that a network reaches, what the nodes know and what they sent is true.
use dl_dsr_rs.Base.{
  ℕ, ◌≡◌, refl, sym, ap, ◌∙◌, subst, Bool, true, false, inl, inr, Bool-cases, List, [], ◌∷◌, some,
  All, All-append, All-map, All-get_elem?, nat_beq, arith,
}
use dl_dsr_rs.Core.Socket.{SocketAddr}
use dl_dsr_rs.Core.Packet.{Codec}
use dl_dsr_rs.Core.Tables.{neighbor_by_label}
use dl_dsr_rs.Core.Topology.{NodeConfig}
use dl_dsr_rs.Core.Routes.{RouteEntry, shortest}
use dl_dsr_rs.Node.State.{Clock, OutboundPacket, new}
use dl_dsr_rs.Node.Lookup.{is_logical_neighbor}
use dl_dsr_rs.Node.Daemon.{Input, daemon_step}
use dl_dsr_rs.Node.Reach.{IsValid, new-IsValid, daemon_step-IsValid}
use dl_dsr_rs.Node.Stable.{neighbor_by_label-daemon_step}
use dl_dsr_rs.Network.Truth.{
  Leads, IsTrueRoute, IsTruePacket, IsTruePacket-more, AreTrue, Knows, Knows-more,
}
use dl_dsr_rs.Network.Truth.Tables.{shortest-IsTrueRoute}
use dl_dsr_rs.Network.System.{
  Datagram, System, datagrams, act, Arises, Step, init, Reach, Later, Reach-Later, IsFleet, Means,
}
use dl_dsr_rs.Network.System.Rounds.{Feeds, daemon_step-config, daemon_step_true}

module _ (c : Codec) (conf : ℕ → NodeConfig) (addr : ℕ → SocketAddr) (fleet : IsFleet conf) where
  -- What a datagram says is true.
  abbrev pub IsTrue : System → Datagram → Type 0
  IsTrue s d = IsTruePacket (Means s) addr d.src d.packet

  pub record IsSound (s : System) : Type 0 where
    pub config : (n : ℕ) → (s.node n).config ≡ conf n
    pub valid : (n : ℕ) → IsValid (s.node n)
    pub knows : (n : ℕ) → Knows (Means s) addr (s.node n)
    pub sent : All (IsTrue s) s.sent

  init-IsSound : IsSound (init c conf addr)
  unfolding new
  init-IsSound = record {
    config = λ n. refl;
    valid = λ n. new-IsValid (conf n);
    knows = λ n. record { at = tt; given = tt; routes = tt };
    sent = tt;
  }

  feeds :
      (s : System) (n : ℕ) (i : Input)
      → IsSound s
      → Arises c conf addr s n i
      → Feeds (Means s) addr c i
  feeds s n i h Arises.hello_time = tt
  feeds s n i h (Arises.protocol_time now) = tt
  feeds s n i h Arises.metrics_time = tt
  feeds s n i h (Arises.controlled request) = tt
  feeds s n i h Arises.failed = tt
  feeds s n i h (Arises.commanded request) = tt
  feeds s n i h (Arises.arrived k d at to e) =
      (d.packet, e, All-get_elem? (IsTrue s) s.sent k d h.sent at)

  Feeds-more :
      (leads more : Leads) (i : Input)
      → ((a l b : ℕ) → leads a l b → more a l b)
      → Feeds leads addr c i
      → Feeds more addr c i
  Feeds-more leads more Input.hello_tick w f = tt
  Feeds-more leads more (Input.protocol_tick now) w f = tt
  Feeds-more leads more Input.metrics_tick w f = tt
  Feeds-more leads more (Input.control r) w f = tt
  Feeds-more leads more (Input.received bytes a) w (p, e, t) =
      (p, e, IsTruePacket-more leads more w addr a p t)
  Feeds-more leads more Input.receive_failed w f = tt
  Feeds-more leads more (Input.command r) w f = tt

  -- What a label means in one state of the network, it means in the next.
  Means-act :
      (s : System) (n : ℕ) (accepted : ℕ → Bool) (i : Input) (clock : Clock) (a l b : ℕ)
      → IsSound s
      → Means s a l b
      → Means (act c conf addr s n accepted i clock) a l b
  Means-act s n accepted i clock a l b h (e, found, is_b) = elim (Bool-cases (nat_beq n a)) [
    | inr apart ↦ rw apart (e, found, is_b)
    | inl same ↦
        let q : n ≡ a = ground arith in
        let (f, stays, is_e) =
          neighbor_by_label-daemon_step c accepted (s.node n) i clock l e (h.valid n).labelled
            (subst (λ m. neighbor_by_label (s.node m).neighbors l ≡ some e) (sym q) found) in
        rw same (f, stays, is_e ∙ is_b)
  ]

  datagrams-All :
      (s : System) (n : ℕ) (os : List OutboundPacket)
      → AreTrue (Means s) addr (addr n) os
      → All (IsTrue s) (datagrams c conf addr n os)
  datagrams-All s n [] h = tt
  datagrams-All s n (o ∷ os) h = (h.0, datagrams-All s n os h.1)

  act-IsSound :
      (s : System) (n : ℕ) (accepted : ℕ → Bool) (i : Input) (clock : Clock)
      → IsSound s
      → Arises c conf addr s n i
      → IsSound (act c conf addr s n accepted i clock)
  act-IsSound s n accepted i clock h arises =
      let t = act c conf addr s n accepted i clock in
      let id = ap (λ (k : NodeConfig). k.node_id) (h.config n) ∙ fleet.id n in
      let weaken = λ (a l b : ℕ) (m : Means s a l b). Means-act s n accepted i clock a l b h m in
      let mode = ap (λ (k : NodeConfig). k.protocol_mode) (h.config n) ∙ fleet.mode n in
      let alone : is_logical_neighbor (s.node n).config (s.node n).config.node_id ≡ false =
        subst (λ k. is_logical_neighbor (s.node n).config k ≡ false) (sym id)
          (subst (λ (k : NodeConfig). is_logical_neighbor k n ≡ false) (sym (h.config n))
            (fleet.alone n)) in
      let self : nat_beq n n ≡ true = ground arith in
      let own = (h.valid n).labelled in
      let (known, told) =
        daemon_step_true (Means t) addr c (s.node n) clock mode alone own
          (Knows-more (Means s) (Means t) weaken addr (s.node n) (h.knows n)) accepted i
          (Feeds-more (Means s) (Means t) i weaken (feeds s n i h arises))
          (λ l e f. subst (λ m. Means t m l e.node_id) (sym id) (rw self (e, f, refl))) in
      record {
        config = λ m. elim (Bool-cases (nat_beq n m)) [
          | inr apart ↦ rw apart (h.config m)
          | inl same ↦
              let q : n ≡ m = ground arith in
              rw same (
                daemon_step-config c accepted (s.node n) i clock
                ∙ subst (λ k. (s.node n).config ≡ conf k) q (h.config n))
        ];
        valid = λ m. elim (Bool-cases (nat_beq n m)) [
          | inr apart ↦ rw apart (h.valid m)
          | inl same ↦ rw same (daemon_step-IsValid c accepted (s.node n) i clock (h.valid n))
        ];
        knows = λ m. elim (Bool-cases (nat_beq n m)) [
          | inr apart ↦ rw apart (Knows-more (Means s) (Means t) weaken addr (s.node m) (h.knows m))
          | inl same ↦ rw same known
        ];
        sent =
            All-append (IsTrue t) s.sent _
              (All-map (IsTrue s) (IsTrue t) s.sent
                (λ d k. IsTruePacket-more (Means s) (Means t) weaken addr d.src d.packet k) h.sent)
              (datagrams-All t n _ (
                subst
                  (λ m.
                    AreTrue (Means t) addr (addr m)
                      (daemon_step c accepted (s.node n) i clock).1.outbound)
                  id told));
      }

  -- The invariant holds in every state that the network reaches.
  pub Reach-IsSound : {s : System} → Reach c conf addr s → IsSound s
  Reach-IsSound Reach.start = init-IsSound
  Reach-IsSound (Reach.later {s} r (Step.round n accepted i clock arises)) =
      act-IsSound s n accepted i clock (Reach-IsSound r) arises

  -- What a label means, it means from then on.
  pub Means-Later :
      {s t : System} (a l b : ℕ)
      → Reach c conf addr s
      → Later c conf addr s t
      → Means s a l b
      → Means t a l b
  Means-Later a l b r Later.now m = m
  Means-Later a l b r (Later.then {t} later (Step.round n accepted i clock arises)) m =
      Means-act t n accepted i clock a l b (Reach-IsSound (Reach-Later c conf addr r later))
        (Means-Later a l b r later m)

  -- Let each node have its own number, run in the label mode and be no neighbour of itself. Then
  -- in any state that the network reaches, whatever was lost, late, repeated or reordered, a
  -- route that a node has for a destination goes from the node to the destination, with one label
  -- for each hop, each in the table of the node that reads it, for the next node on the route;
  -- and it meets the destination at its end alone, where it does not start there.
  pub shortest_is_true :
      {s : System} (n dst now : ℕ) (r : RouteEntry)
      → Reach c conf addr s
      → shortest (s.node n).routes dst now ≡ some r
      → IsTrueRoute (Means s) n dst r.dsr_path r.dldsr_label_path
  shortest_is_true {s} n dst now r reached served =
      let h = Reach-IsSound reached in
      let id = ap (λ (k : NodeConfig). k.node_id) (h.config n) ∙ fleet.id n in
      subst (λ m. IsTrueRoute (Means s) m dst r.dsr_path r.dldsr_label_path) id
        (shortest-IsTrueRoute (Means s) addr (s.node n) dst now r (h.knows n) served)

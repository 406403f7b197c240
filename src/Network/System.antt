-- ===== src/Network/System.antt =====
-- The network: the daemons of all nodes, and every datagram that was sent. A datagram may arrive
-- late, more than once, out of order or never: UDP promises nothing else.
pub mod Rounds
pub mod Truths
pub mod Delivery
pub mod Provenance
use dl_dsr_rs.Base.{
  ℕ, ◌≡◌, Bool, false, List, [], ◌++◌, some, ok, map, get_elem?, nat_beq, if◌then◌else◌,
}
use mathlib.Core.Option.{Option}
use dl_dsr_rs.Core.Socket.{SocketAddr}
use dl_dsr_rs.Core.Packet.{dl_dsr, Packet, Codec, encode}
use dl_dsr_rs.Core.Tables.{NeighborEntry, neighbor_by_label}
use dl_dsr_rs.Core.Topology.{NodeConfig}
use dl_dsr_rs.Node.State.{Clock, ProtocolCommand, OutboundPacket, ProtocolState, new}
use dl_dsr_rs.Node.Lookup.{is_logical_neighbor}
use dl_dsr_rs.Node.Daemon.{
  ControlSendRequest, Input, hello_tick, protocol_tick, metrics_tick, control, received,
  receive_failed, command, daemon_step,
}

pub record Datagram : Type 0 where
  pub src : SocketAddr
  pub dst : SocketAddr
  pub packet : Packet

pub record System : Type 0 where
  pub node : ℕ → ProtocolState
  pub sent : List Datagram

-- A family with another value at one index.
abbrev pub update : (ℕ → ProtocolState) → ℕ → ProtocolState → ℕ → ProtocolState
update f n t m = if nat_beq n m then t else f m

module _ (c : Codec) (conf : ℕ → NodeConfig) (addr : ℕ → SocketAddr) where
  abbrev pub datagrams : ℕ → List OutboundPacket → List Datagram
  datagrams n = map (λ o. record { src = addr n; dst = o.dst; packet = o.packet })

  -- One round of the daemon of `n`.
  abbrev pub act : System → ℕ → (ℕ → Bool) → Input → Clock → System
  act s n accepted i clock =
      let (t, actions) = daemon_step c accepted (s.node n) i clock in
      record { node = update s.node n t; sent = s.sent ++ datagrams n actions.outbound }

  -- What `n` may find at its socket, its channels and its timers: a datagram is one that was sent.
  pub data Arises (s : System) (n : ℕ) : Input → Type 0 where
    hello_time : Arises s n hello_tick
    protocol_time : (now : ℕ) → Arises s n (protocol_tick now)
    metrics_time : Arises s n metrics_tick
    controlled : (request : Option ControlSendRequest) → Arises s n (control request)
    failed : Arises s n receive_failed
    commanded : (request : ProtocolCommand) → Arises s n (command request)
    arrived :
        {bytes : List ℕ} (i : ℕ) (d : Datagram)
        → get_elem? s.sent i ≡ some d
        → d.dst ≡ addr n
        → encode c d.packet ≡ ok bytes
        → Arises s n (received bytes d.src)

  pub data Step (s : System) : System → Type 0 where
    round :
        (n : ℕ) (accepted : ℕ → Bool) (i : Input) (clock : Clock)
        → Arises s n i
        → Step s (act s n accepted i clock)

  abbrev pub init : System
  init = record { node = λ n. new (conf n); sent = [] }

  pub data Reach : System → Type 0 where
    start : Reach init
    later : {s t : System} → Reach s → Step s t → Reach t

  -- What comes after a state.
  pub data Later (s : System) : System → Type 0 where
    now : Later s s
    then : {t u : System} → Later s t → Step t u → Later s u

  pub Reach-Later : {s t : System} → Reach s → Later s t → Reach t
  Reach-Later r Later.now = r
  Reach-Later r (Later.then l step) = Reach.later (Reach-Later r l) step

-- Each node has its own number, runs in the label mode and is no neighbour of itself.
pub record IsFleet (conf : ℕ → NodeConfig) : Type 0 where
  pub id : (n : ℕ) → (conf n).node_id ≡ n
  pub mode : (n : ℕ) → (conf n).protocol_mode ≡ dl_dsr
  pub alone : (n : ℕ) → is_logical_neighbor (conf n) n ≡ false

-- At the node `a` the label `l` means `b`.
abbrev pub Means : System → ℕ → ℕ → ℕ → Type 0
Means s a l b =
    (e : NeighborEntry) × (neighbor_by_label (s.node a).neighbors l ≡ some e) × (e.node_id ≡ b)

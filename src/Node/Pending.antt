-- ===== src/Node/Pending.antt =====
-- The queue of payloads and the discoveries: no payload waits for a route that nobody seeks, and
-- no discovery has gone beyond its last retry.
use dl_dsr_rs.Base.{
  ℕ, ◌≤◌, ◌≡◌, refl, List, [], ◌∷◌, Bool, true, not, inl, inr, Bool-cases, nat_eq, nat_beq, length,
  filter, All, arith, ◌==◌,
}
use dl_dsr_rs.HashMap.{HashMap, insert, remove, contains_key}
use dl_dsr_rs.HashMap.Laws.{get-insert, get-remove}
use dl_dsr_rs.Core.Routes.{RouteEntry}
use dl_dsr_rs.Node.State.{Clock, later, PendingData, DiscoveryState, ProtocolState}
use dl_dsr_rs.Node.Origin.{origin_data, flush_loop, flush_pending, drop_loop}
use dl_dsr_rs.Node.Frame.{flush_loop-Quiet}

-- The payloads that wait for a destination, and the others.
abbrev pub waits_for : ℕ → PendingData → Bool
waits_for dst p = nat_beq p.dst_node_id dst

abbrev pub waits_not : ℕ → PendingData → Bool
waits_not dst p = not (nat_beq p.dst_node_id dst)

-- `flush_pending` and `drop_pending_for_dst` keep the others, in their order.
pub flush_loop-remaining :
    (dst : ℕ) (route : RouteEntry) (queue : List PendingData) (clock : Clock) (s : ProtocolState)
    → (flush_loop dst route queue clock s).2 ≡ filter (waits_not dst) queue
unfolding flush_loop
flush_loop-remaining dst route [] clock s = refl
flush_loop-remaining dst route (p ∷ queue) clock s = ground (
  arith,
  flush_loop-remaining dst route queue (later clock) (origin_data s dst p.payload route clock).0,
  flush_loop-remaining dst route queue clock s,
)

-- A flush takes from the queue what waits for the destination, and nothing else of the discovery.
pub record IsFlushed (dst : ℕ) (s t : ProtocolState) : Type 0 where
  pub config : t.config ≡ s.config
  pub discoveries : t.discoveries ≡ s.discoveries
  pub pending_data : t.pending_data ≡ filter (waits_not dst) s.pending_data

pub flush_pending-IsFlushed :
    (s : ProtocolState) (dst : ℕ) (route : RouteEntry) (clock : Clock)
    → IsFlushed dst s (flush_pending s dst route clock).0
unfolding flush_pending
flush_pending-IsFlushed s dst route clock =
    let q = flush_loop-Quiet dst route s.pending_data clock s in
    record {
      config = q.0.config;
      discoveries = q.1.discoveries;
      pending_data = flush_loop-remaining dst route s.pending_data clock s;
    }

pub drop_loop-filter :
    (dst : ℕ) (queue : List PendingData)
    → (length (filter (waits_for dst) queue) ≡ (drop_loop dst queue).0)
      × ((drop_loop dst queue).1 ≡ filter (waits_not dst) queue)
unfolding drop_loop
drop_loop-filter dst [] = (refl, refl)
drop_loop-filter dst (p ∷ queue) = ground (arith, drop_loop-filter dst queue)

-- Every payload that waits has a discovery for its destination.
abbrev pub Covers : HashMap ℕ DiscoveryState → List PendingData → Type 0
Covers ds = All (λ p. contains_key p.dst_node_id ds ≡ true)

pub insert-Covers :
    (k : ℕ) (d : DiscoveryState) (ds : HashMap ℕ DiscoveryState) (ps : List PendingData)
    → Covers ds ps
    → Covers (insert k d ds) ps
insert-Covers k d ds [] h = tt
insert-Covers k d ds (p ∷ ps) h =
    (ground (arith, h.0, get-insert k p.dst_node_id d ds), insert-Covers k d ds ps h.1)

pub remove-Covers :
    (k : ℕ) (ds : HashMap ℕ DiscoveryState) (ps : List PendingData)
    → Covers ds ps
    → Covers (remove k ds) (filter (waits_not k) ps)
remove-Covers k ds [] h = tt
remove-Covers k ds (p ∷ ps) h =
    ground (arith, h.0, get-remove k p.dst_node_id ds, remove-Covers k ds ps h.1)

-- No discovery counts more retries than the configuration allows.
abbrev pub RetriesWithin : ℕ → HashMap ℕ DiscoveryState → Type 0
RetriesWithin max = All (λ e. e.1.retries_done ≤ max)

pub insert-RetriesWithin :
    (max k : ℕ) (d : DiscoveryState) (ds : HashMap ℕ DiscoveryState)
    → d.retries_done ≤ max
    → RetriesWithin max ds
    → RetriesWithin max (insert k d ds)
unfolding insert
insert-RetriesWithin max k d [] b h = (b, tt)
insert-RetriesWithin max k d ((j, e) ∷ ds) b h = elim (Bool-cases (j == k)) [
  | inl q ↦ rw q (b, h.1)
  | inr q ↦ rw q (h.0, insert-RetriesWithin max k d ds b h.1)
]

-- ===== src/Node/GiveUp.antt =====
-- A discovery past its last retry: the next tick ends it and empties the queue for its destination.
use dl_dsr_rs.Base.{
  ℕ, ◌≤◌, ◌≡◌, refl, subst, true, false, inl, inr, Bool-cases, List, [], ◌∷◌, ◌-◌, none, some,
  filter, nat_eq, nat_beq, leb, arith,
}
use dl_dsr_rs.HashMap.{get}
use dl_dsr_rs.HashMap.Laws.{get-insert, get-remove}
use dl_dsr_rs.HashMap.Keys.{HasDistinctKeys, get-filter, filter-HasDistinctKeys}
use dl_dsr_rs.Node.State.{
  Clock, later, PendingData, DiscoveryState, ProtocolActions, no_actions, ProtocolState,
}
use dl_dsr_rs.Node.Origin.{drop_pending_for_dst}
use dl_dsr_rs.Node.Discovery.{
  start_discovery, is_expired, fail_discovery, retry_discovery, retry_loop,
  retry_expired_discoveries, handle_tick,
}
use dl_dsr_rs.Core.Seen.{prune}
use dl_dsr_rs.Node.Frame.{fail_discovery-Frame, retry_discovery-Frame}
use dl_dsr_rs.Core.Packet.{Codec}
use dl_dsr_rs.Core.Topology.{NodeConfig}
use dl_dsr_rs.Node.Reach.{Reach, Reach-IsValid}
use dl_dsr_rs.Node.Pending.{waits_for, waits_not, drop_loop-filter}

-- Nobody seeks `k`, and nothing waits for it.
abbrev pub Gone : ℕ → ProtocolState → Type 0
Gone k s = (get k s.discoveries ≡ none) × (filter (waits_for k) s.pending_data ≡ [])

nobody_waits :
    (k j : ℕ) (ps : List PendingData)
    → nat_beq j k ≡ true
    → filter (waits_for k) (filter (waits_not j) ps) ≡ []
nobody_waits k j [] e = refl
nobody_waits k j (p ∷ ps) e = ground (arith, nobody_waits k j ps e)

still_nobody :
    (k j : ℕ) (ps : List PendingData)
    → filter (waits_for k) ps ≡ []
    → filter (waits_for k) (filter (waits_not j) ps) ≡ []
still_nobody k j [] h = refl
still_nobody k j (p ∷ ps) h = ground (arith, still_nobody k j ps)

fail_discovery-Gone :
    (k j : ℕ) (d : DiscoveryState) (s : ProtocolState) (actions : ProtocolActions)
    → Gone k s
    → Gone k (fail_discovery j d (s, actions)).0
unfolding fail_discovery drop_pending_for_dst
fail_discovery-Gone k j d s actions (g, w) = ground (
  arith,
  get-remove j k s.discoveries,
  drop_loop-filter j s.pending_data,
  still_nobody k j s.pending_data,
)

fail_discovery_self :
    (k j : ℕ) (d : DiscoveryState) (s : ProtocolState) (actions : ProtocolActions)
    → nat_beq j k ≡ true
    → Gone k (fail_discovery j d (s, actions)).0
unfolding fail_discovery drop_pending_for_dst
fail_discovery_self k j d s actions e = ground (
  arith,
  get-remove j k s.discoveries,
  drop_loop-filter j s.pending_data,
  nobody_waits k j s.pending_data,
)

retry_discovery-Gone :
    (k j : ℕ) (d : DiscoveryState) (clock : Clock) (s : ProtocolState) (actions : ProtocolActions)
    → nat_beq j k ≡ false
    → Gone k s
    → Gone k (retry_discovery j d clock (s, actions)).0
unfolding retry_discovery start_discovery
retry_discovery-Gone k j d clock s actions e (g, w) = grind (arith, get-insert)

retry_loop-Gone :
    (k : ℕ) (es : List (ℕ × DiscoveryState)) (clock : Clock) (acc : ProtocolState × ProtocolActions)
    → get k es ≡ none
    → Gone k acc.0
    → Gone k (retry_loop es clock acc).0
unfolding retry_loop get
retry_loop-Gone k [] clock acc h g = g
retry_loop-Gone k ((j, d) ∷ es) clock acc h g =
    elim (Bool-cases (leb (acc.0).config.route_discovery_max_retries d.retries_done)) [
      | inl e ↦
          rw (e, retry_loop)
            (retry_loop-Gone k es clock _ (ground arith) (fail_discovery-Gone k j d acc.0 acc.1 g))
      | inr e ↦
          rw (e, retry_loop)
            (retry_loop-Gone k es (later clock) _ (ground arith)
              (retry_discovery-Gone k j d clock acc.0 acc.1 (ground arith) g))
    ]

retry_loop_gives_up :
    (k : ℕ) (d : DiscoveryState) (es : List (ℕ × DiscoveryState)) (clock : Clock)
    (acc : ProtocolState × ProtocolActions)
    → HasDistinctKeys es
    → get k es ≡ some d
    → (acc.0).config.route_discovery_max_retries ≤ d.retries_done
    → Gone k (retry_loop es clock acc).0
unfolding retry_loop get
retry_loop_gives_up k d [] clock acc own h past = cc
retry_loop_gives_up k d ((j, c) ∷ es) clock acc own h past = elim (Bool-cases (nat_beq j k)) [
  | inl same ↦
      let q : j ≡ k = ground arith in
      let over : leb (acc.0).config.route_discovery_max_retries c.retries_done ≡ true =
        ground arith in
      rw (over, retry_loop)
        (retry_loop-Gone k es clock _ (subst (λ x. get x es ≡ none) q own.0)
          (fail_discovery_self k j c acc.0 acc.1 same))
  | inr apart ↦
      let found : get k es ≡ some d = ground arith in
      elim (Bool-cases (leb (acc.0).config.route_discovery_max_retries c.retries_done)) [
        | inl e ↦
            let f = (fail_discovery-Frame j c acc).config in
            rw (e, retry_loop) (retry_loop_gives_up k d es clock _ own.1 found (rw f past))
        | inr e ↦
            let f = (retry_discovery-Frame j c clock acc).config in
            rw (e, retry_loop) (retry_loop_gives_up k d es (later clock) _ own.1 found (rw f past))
      ]
]

-- In any state that a node reaches, where a discovery was last sent at least the timeout ago and
-- has used up its retries, a tick ends it, and no payload waits for its destination after it,
-- whatever other discoveries the tick retries or ends.
pub handle_tick_gives_up :
    (c : Codec) (conf : NodeConfig) (s : ProtocolState) (k now : ℕ) (d : DiscoveryState)
    (clock : Clock)
    → Reach c conf s
    → get k s.discoveries ≡ some d
    → s.config.route_discovery_timeout_ms ≤ now - d.last_sent_millis
    → s.config.route_discovery_max_retries ≤ d.retries_done
    → (get k (handle_tick s now clock).0.discoveries ≡ none)
      × (filter (waits_for k) (handle_tick s now clock).0.pending_data ≡ [])
unfolding handle_tick retry_expired_discoveries is_expired
handle_tick_gives_up c conf s k now d clock reached here late past =
    let own = (Reach-IsValid c conf reached).queued.distinct in
    let pruned : ProtocolState = record s {
      seen_requests = prune s.seen_requests now s.config.seen_request_ttl_ms;
    } in
    retry_loop_gives_up k d (filter (is_expired pruned now) s.discoveries) clock
      (pruned, no_actions) (filter-HasDistinctKeys (is_expired pruned now) s.discoveries own)
      (ground (arith, get-filter (is_expired pruned now) k s.discoveries own)) past

-- ===== src/Core/Metrics.antt =====
-- The counters of a node (crates/dldsr-core/src/metrics.rs, `NodeMetrics`). A latency sample is
-- the `u64` that the code turns into an `f64`.
use dl_dsr_rs.Base.{ℕ, Bool, List, [], add_u64, if◌then◌else◌}

pub record NodeMetrics : Type 0 where
  pub tx_packets : ℕ
  pub rx_packets : ℕ
  pub tx_bytes : ℕ
  pub rx_bytes : ℕ
  pub control_bytes : ℕ
  pub data_bytes : ℕ
  pub delivered_packets : ℕ
  pub dropped_packets : ℕ
  pub latency_samples_ms : List ℕ
  pub route_discovery_attempts : ℕ
  pub route_discovery_successes : ℕ
  pub route_discovery_failures : ℕ
  pub rreq_forwarded : ℕ
  pub rreq_dropped_duplicate : ℕ
  pub rreq_dropped_ttl : ℕ
  pub rrep_forwarded : ℕ
  pub rrep_dropped_invalid : ℕ
  pub data_forwarded : ℕ
  pub data_delivered : ℕ
  pub data_dropped : ℕ

-- `NodeMetrics::default()`
abbrev pub no_metrics : NodeMetrics
no_metrics = record {
  tx_packets = 0;
  rx_packets = 0;
  tx_bytes = 0;
  rx_bytes = 0;
  control_bytes = 0;
  data_bytes = 0;
  delivered_packets = 0;
  dropped_packets = 0;
  latency_samples_ms = [];
  route_discovery_attempts = 0;
  route_discovery_successes = 0;
  route_discovery_failures = 0;
  rreq_forwarded = 0;
  rreq_dropped_duplicate = 0;
  rreq_dropped_ttl = 0;
  rrep_forwarded = 0;
  rrep_dropped_invalid = 0;
  data_forwarded = 0;
  data_delivered = 0;
  data_dropped = 0;
}

-- `NodeMetrics::record_tx`
unfoldable pub record_tx : NodeMetrics → ℕ → Bool → NodeMetrics
record_tx m bytes control =
    let m' : NodeMetrics = record m {
      tx_packets = add_u64 m.tx_packets 1;
      tx_bytes = add_u64 m.tx_bytes bytes;
    } in
    if control
    then record m' { control_bytes = add_u64 m.control_bytes bytes }
    else record m' { data_bytes = add_u64 m.data_bytes bytes }

-- `NodeMetrics::record_rx`
unfoldable pub record_rx : NodeMetrics → ℕ → NodeMetrics
record_rx m bytes = record m {
  rx_packets = add_u64 m.rx_packets 1;
  rx_bytes = add_u64 m.rx_bytes bytes;
}

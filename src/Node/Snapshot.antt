-- ===== src/Node/Snapshot.antt =====
-- The file of metrics (crates/dldsr-node/src/daemon.rs): the snapshot, and its writing under a
-- temporary name. The file system is the content of each file; how each call of it ends is an
-- argument. The JSON and the calls on paths are parameters.
pub mod Atomic
use dl_dsr_rs.Base.{ℕ, List, Option, none, some, Result, ok, err, if◌then◌else◌}
use dl_dsr_rs.Core.Socket.{Text, bytes, text_beq}
use dl_dsr_rs.Core.Packet.{ProtocolMode}
use dl_dsr_rs.Core.Float.{F64}
use dl_dsr_rs.Core.Energy.{average_latency_ms}
use dl_dsr_rs.Node.State.{ProtocolState}

pub record MetricsSnapshot (W : Type 0) : Type 0 where
  pub node_id : ℕ
  pub protocol_mode : ProtocolMode
  pub tx_bytes : ℕ
  pub rx_bytes : ℕ
  pub control_bytes : ℕ
  pub data_bytes : ℕ
  pub delivered_packets : ℕ
  pub dropped_packets : ℕ
  pub route_discovery_attempts : ℕ
  pub route_discovery_successes : ℕ
  pub route_discovery_failures : ℕ
  pub rreq_forwarded : ℕ
  pub rreq_dropped_duplicate : ℕ
  pub rreq_dropped_ttl : ℕ
  pub rrep_forwarded : ℕ
  pub rrep_dropped_invalid : ℕ
  pub data_forwarded : ℕ
  pub data_delivered : ℕ
  pub data_dropped : ℕ
  pub average_latency_ms : W

-- `Daemon::metrics_snapshot`
unfoldable pub metrics_snapshot : {W : Type 0} ⦃f : F64 W⦄ → ProtocolState → MetricsSnapshot W
metrics_snapshot s = record {
  node_id = s.config.node_id;
  protocol_mode = s.config.protocol_mode;
  tx_bytes = s.metrics.tx_bytes;
  rx_bytes = s.metrics.rx_bytes;
  control_bytes = s.metrics.control_bytes;
  data_bytes = s.metrics.data_bytes;
  delivered_packets = s.metrics.delivered_packets;
  dropped_packets = s.metrics.dropped_packets;
  route_discovery_attempts = s.metrics.route_discovery_attempts;
  route_discovery_successes = s.metrics.route_discovery_successes;
  route_discovery_failures = s.metrics.route_discovery_failures;
  rreq_forwarded = s.metrics.rreq_forwarded;
  rreq_dropped_duplicate = s.metrics.rreq_dropped_duplicate;
  rreq_dropped_ttl = s.metrics.rreq_dropped_ttl;
  rrep_forwarded = s.metrics.rrep_forwarded;
  rrep_dropped_invalid = s.metrics.rrep_dropped_invalid;
  data_forwarded = s.metrics.data_forwarded;
  data_delivered = s.metrics.data_delivered;
  data_dropped = s.metrics.data_dropped;
  average_latency_ms = average_latency_ms s.metrics;
}

-- The content of each file.
abbrev pub Disk : Type 0
Disk = Text → Option (List ℕ)

abbrev pub put : Text → Option (List ℕ) → Disk → Disk
put path content d p = if text_beq path p then content else d p

-- How a call ends: a write that fails may leave a part behind.
pub data Ending : Type 0 where
  done : Ending
  failed : (cause : Text) → Ending
  torn : (part : List ℕ) (cause : Text) → Ending

-- `tokio::fs::create_dir_all`, which changes no file.
abbrev pub create_dir_all : Ending → Result Text (Unit {0})
create_dir_all done = ok tt
create_dir_all (failed cause) = err cause
create_dir_all (torn _ cause) = err cause

-- `tokio::fs::write`
abbrev pub write : Ending → Text → List ℕ → Disk → Disk × Result Text (Unit {0})
write done path content d = (put path (some content) d, ok tt)
write (failed cause) path content d = (d, err cause)
write (torn part cause) path content d = (put path (some part) d, err cause)

-- `tokio::fs::rename`, which moves the whole file or does nothing.
abbrev pub rename : Ending → Text → Text → Disk → Disk × Result Text (Unit {0})
rename done from to d = elim (d from) [
  | none ↦ (d, err (bytes "No such file or directory"))
  | some content ↦ (put to (some content) (put from none d), ok tt)
]
rename (failed cause) from to d = (d, err cause)
rename (torn _ cause) from to d = (d, err cause)

-- `Path::parent`, `Path::with_extension("tmp")` and `serde_json::to_vec_pretty`.
pub record Files (W : Type 0) : Type 0 where
  pub parent : Text → Option Text
  pub with_extension_tmp : Text → Text
  pub to_vec_pretty : MetricsSnapshot W → Result Text (List ℕ)

module _ {W : Type 0} (files : Files W) where
  -- The start of `write_metrics_snapshot`.
  unfoldable pub create_parent : Ending → Text → Result Text (Unit {0})
  create_parent ending path = elim (files.parent path) [
    | none ↦ ok tt
    | some parent ↦ create_dir_all ending
  ]

  -- The end of `write_metrics_snapshot`.
  unfoldable pub replace : Ending → Ending → Text → List ℕ → Disk → Disk × Result Text (Unit {0})
  replace written renamed path content d =
      let tmp_path = files.with_extension_tmp path in
      let (d', r) = write written tmp_path content d in
      elim r [ err cause ↦ (d', err cause) | ok _ ↦ rename renamed tmp_path path d' ]

  -- `write_metrics_snapshot`
  unfoldable pub write_metrics_snapshot :
      (ℕ → Ending) → Text → MetricsSnapshot W → Disk → Disk × Result Text (Unit {0})
  write_metrics_snapshot ending path snapshot d = elim (create_parent (ending 0) path) [
    | err cause ↦ (d, err cause)
    | ok _ ↦ elim (files.to_vec_pretty snapshot) [
      | err cause ↦ (d, err cause)
      | ok content ↦ replace (ending 1) (ending 2) path content d
    ]
  ]

  -- `Daemon::write_metrics_file`
  unfoldable pub write_metrics_file :
      ⦃f : F64 W⦄ → (ℕ → Ending) → ProtocolState → Disk → Disk × Result Text (Unit {0})
  write_metrics_file ending s d = elim s.config.metrics_output_path [
    | none ↦ (d, ok tt)
    | some path ↦ write_metrics_snapshot ending path (metrics_snapshot s) d
  ]

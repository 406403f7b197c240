-- ===== src/Bench.antt =====
-- The comparison of the two modes (crates/dldsr-bench/src/main.rs). What `clap` makes of the
-- arguments is the input.
pub mod Savings
pub mod Markdown
use dl_dsr_rs.Base.{ℕ, Bool, ok, Result, ◌>>=◌, saturating_sub, if◌then◌else◌}
use dl_dsr_rs.Core.Packet.{ProtocolMode, dsr, dl_dsr}
use dl_dsr_rs.Core.Float.{F64}
use dl_dsr_rs.Core.Simulation.{BenchmarkReport, Panic, simulate_chain}

-- `Args`
pub record Args : Type 0 where
  pub mode : ProtocolMode
  pub hops : ℕ
  pub payload_size : ℕ
  pub packets : ℕ
  pub json : Bool
  pub compare : Bool

pub record ComparisonReport (W : Type 0) : Type 0 where
  pub dsr : BenchmarkReport W
  pub dldsr : BenchmarkReport W
  pub path_header_savings_bytes : ℕ
  pub total_tx_savings_bytes : ℕ
  pub estimated_energy_savings_units : W

-- `ComparisonReport::new`
unfoldable pub comparison : {W : Type 0} ⦃f : F64 W⦄ → ℕ → ℕ → ℕ → Result Panic (ComparisonReport W)
comparison ⦃f⦄ hops payload_size packet_count = do
  d ← simulate_chain hops dsr payload_size packet_count
  l ← simulate_chain hops dl_dsr payload_size packet_count
  ok (record {
    dsr = d;
    dldsr = l;
    path_header_savings_bytes = saturating_sub d.path_header_bytes l.path_header_bytes;
    total_tx_savings_bytes = saturating_sub d.total_tx_bytes l.total_tx_bytes;
    estimated_energy_savings_units = f.sub d.estimated_energy_units l.estimated_energy_units;
  })

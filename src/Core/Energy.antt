-- ===== src/Core/Energy.antt =====
-- The estimate of energy (crates/dldsr-core/src/energy.rs), and what `NodeMetrics` makes of its
-- counters in `f64` (crates/dldsr-core/src/metrics.rs).
use dl_dsr_rs.Base.{ℕ, List, [], ◌∷◌, map, length}
use dl_dsr_rs.Core.Float.{F64}
use dl_dsr_rs.Core.Metrics.{NodeMetrics}

pub record EnergyEstimate (W : Type 0) : Type 0 where
  pub tx_energy_units : W
  pub rx_energy_units : W
  pub total_energy_units : W

module _ {W : Type 0} ⦃f : F64 W⦄ where
  -- `EnergyEstimate::from_bytes`
  unfoldable pub from_bytes : ℕ → ℕ → EnergyEstimate W
  from_bytes tx_bytes rx_bytes =
      let tx_energy_units = f.mul (f.of_u64 tx_bytes) (f.literal 10 1) in
      let rx_energy_units = f.mul (f.of_u64 rx_bytes) (f.literal 5 1) in
      record {
        tx_energy_units = tx_energy_units;
        rx_energy_units = rx_energy_units;
        total_energy_units = f.add tx_energy_units rx_energy_units;
      }

  -- `NodeMetrics::energy`
  unfoldable pub energy : NodeMetrics → EnergyEstimate W
  energy m = from_bytes m.tx_bytes m.rx_bytes

  -- `mean`
  unfoldable pub mean : List W → W
  mean [] = f.literal 0 1
  mean (x ∷ xs) = f.div (f.sum (x ∷ xs)) (f.of_u64 (length (x ∷ xs)))

  -- `NodeMetrics::average_latency_ms`
  unfoldable pub average_latency_ms : NodeMetrics → W
  average_latency_ms m = mean (map f.of_u64 m.latency_samples_ms)

-- ===== src/Core/Simulation.antt =====
-- The benchmark's figures for a chain of nodes (crates/dldsr-core/src/metrics.rs,
-- `simulate_chain`). A read out of range, which panics, is
-- an error.
pub mod Percentile
use dl_dsr_rs.Base.{
  ℕ, zero, ◌-◌, ◌%◌, Bool, true, false, List, [], ◌∷◌, Option, none, some, map, get_elem?, length,
  saturating_sub, add_u64, mul_u64, leb, if◌then◌else◌, ◌>>=◌, Result, ok, err, ok_or,
}
use Prim.Native.Nat.{max, Ordering}
use dl_dsr_rs.Core.Packet.{ProtocolMode, path_header_bytes}
use dl_dsr_rs.Core.Topology.{count_up}
use dl_dsr_rs.Core.Float.{F64}
use dl_dsr_rs.Core.Energy.{EnergyEstimate, from_bytes, mean}

-- How the simulation may panic.
pub data Panic : Type 0 where
  index_out_of_range : (len index : ℕ) → Panic

pub record BenchmarkReport (W : Type 0) : Type 0 where
  pub mode : ProtocolMode
  pub hops : ℕ
  pub payload_size : ℕ
  pub packet_count : ℕ
  pub total_tx_bytes : ℕ
  pub total_rx_bytes : ℕ
  pub control_bytes : ℕ
  pub data_bytes : ℕ
  pub path_header_bytes : ℕ
  pub delivered_packets : ℕ
  pub lost_packets : ℕ
  pub delivery_ratio : W
  pub average_latency_ms : W
  pub p50_latency_ms : W
  pub p95_latency_ms : W
  pub estimated_energy_units : W

-- `cmp.unwrap_or(Ordering::Equal)`, as a test of whether the first may stay in front.
abbrev pub stays_in_front : Option Ordering → Bool
stays_in_front none = true
stays_in_front (some Ordering.lt) = true
stays_in_front (some Ordering.eq) = true
stays_in_front (some Ordering.gt) = false

module _ {W : Type 0} ⦃f : F64 W⦄ where
  -- `values.sort_by(...)`, which is stable, as an insertion sort.
  abbrev pub insert_value : W → List W → List W
  insert_value x [] = x ∷ []
  insert_value x (y ∷ ys) =
      if stays_in_front (f.partial_cmp x y) then x ∷ y ∷ ys else y ∷ insert_value x ys

  abbrev pub sort_values : List W → List W
  sort_values [] = []
  sort_values (x ∷ xs) = insert_value x (sort_values xs)

  -- `percentile`
  unfoldable pub percentile : List W → W → Result Panic W
  percentile [] p = ok (f.literal 0 1)
  percentile (x ∷ xs) p =
      let values = sort_values (x ∷ xs) in
      let idx = f.to_usize (
        f.round
          (f.mul (f.div p (f.literal 1000 1)) (f.of_u64 (saturating_sub (length values) 1)))) in
      ok_or (get_elem? values idx) (index_out_of_range (length values) idx)

  -- The latency of the i-th packet.
  unfoldable pub latency : ℕ → ℕ → ℕ → W
  latency hops payload_size i =
      f.add
        (f.add (f.mul (f.of_u64 hops) (f.literal 8 1))
          (f.mul (f.of_u64 payload_size) (f.literal 2 3)))
        (f.mul (f.of_u64 (i % 5)) (f.literal 5 2))

  -- `simulate_chain`
  unfoldable pub simulate_chain : ℕ → ProtocolMode → ℕ → ℕ → Result Panic (BenchmarkReport W)
  simulate_chain hops mode payload_size packet_count =
      let path_bytes = path_header_bytes mode hops in
      let per_packet = add_u64 (add_u64 payload_size path_bytes) 32 in
      let link_transmissions = max (saturating_sub hops 1) 1 in
      let total_tx_bytes = mul_u64 (mul_u64 per_packet packet_count) link_transmissions in
      let total_rx_bytes = mul_u64 (mul_u64 per_packet packet_count) link_transmissions in
      let latencies = map (latency hops payload_size) (count_up 0 packet_count) in
      let energy : EnergyEstimate W = from_bytes total_tx_bytes total_rx_bytes in
      do
        p50 ← percentile latencies (f.literal 500 1)
        p95 ← percentile latencies (f.literal 950 1)
        ok (record {
          mode = mode;
          hops = hops;
          payload_size = payload_size;
          packet_count = packet_count;
          total_tx_bytes = total_tx_bytes;
          total_rx_bytes = total_rx_bytes;
          control_bytes = 0;
          data_bytes = total_tx_bytes;
          path_header_bytes = mul_u64 path_bytes packet_count;
          delivered_packets = packet_count;
          lost_packets = 0;
          delivery_ratio = f.literal 10 1;
          average_latency_ms = mean latencies;
          p50_latency_ms = p50;
          p95_latency_ms = p95;
          estimated_energy_units = energy.total_energy_units;
        })

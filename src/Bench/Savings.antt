-- ===== src/Bench/Savings.antt =====
-- What the label mode saves in the benchmark.
use dl_dsr_rs.Base.{
  ℕ, zero, suc, ◌+◌, ◌-◌, ◌*◌, ◌≤◌, ◌<◌, ◌^◌, ◌≡◌, refl, ok, map, length, add_u64, mul_u64,
  add_u64_lt, mul_u64_lt, arith, ◌∙◌,
}
use Prim.Native.Nat.{max}
use dl_dsr_rs.Core.Packet.{ProtocolMode, dsr, dl_dsr, path_header_bytes}
use dl_dsr_rs.Core.Topology.{count_up}
use dl_dsr_rs.Core.Float.{F64, IsIeee}
use dl_dsr_rs.Core.Simulation.{BenchmarkReport, latency, simulate_chain}
use dl_dsr_rs.Core.Simulation.Percentile.{length-map, length-count_up, percentile-ok}
use dl_dsr_rs.Bench.{ComparisonReport, comparison}

-- The bytes of a hop in a header.
abbrev pub hop_bytes : ProtocolMode → ℕ
hop_bytes dsr = 4
hop_bytes dl_dsr = 1

-- The transmissions of one packet.
abbrev pub links : ℕ → ℕ
links hops = max (hops - 1) 1

-- All the bytes that are transmitted.
abbrev pub bytes_sent : ℕ → ProtocolMode → ℕ → ℕ → ℕ
bytes_sent hops mode payload packets = (payload + hops * hop_bytes mode + 32) * packets * links hops

links_pos : (hops : ℕ) → 0 < links hops
links_pos hops = omega arith

mul_le_of_pos : (a b : ℕ) → 0 < b → a ≤ a * b
mul_le_of_pos a zero h = absurd (omega arith)
mul_le_of_pos a (suc b) h = omega arith

path_header_bytes_lt :
    (mode : ProtocolMode) (hops : ℕ)
    → hops * hop_bytes mode < 2 ^ 64
    → path_header_bytes mode hops ≡ hops * hop_bytes mode
unfolding path_header_bytes
path_header_bytes_lt dsr hops small = mul_u64_lt hops 4 small
path_header_bytes_lt dl_dsr hops small = mul_u64_lt hops 1 small

-- The products of the simulation, where they fit in 64 bits.
figures :
    (hops : ℕ) (mode : ProtocolMode) (payload packets : ℕ)
    → 0 < packets
    → bytes_sent hops mode payload packets < 2 ^ 64
    → let header = path_header_bytes mode hops in
      (mul_u64 (mul_u64 (add_u64 (add_u64 payload header) 32) packets) (links hops)
        ≡ bytes_sent hops mode payload packets)
      × (mul_u64 header packets ≡ hops * hop_bytes mode * packets)
figures hops mode payload packets some_packet small =
    let k = hops * hop_bytes mode in
    let each = payload + k + 32 in
    let over_links = mul_le_of_pos (each * packets) (links hops) (links_pos hops) in
    let over_packets = mul_le_of_pos each packets some_packet in
    let header = path_header_bytes_lt mode hops (omega arith) in
    let payload_sum : add_u64 payload k ≡ payload + k = add_u64_lt payload k (omega arith) in
    let sum : add_u64 (payload + k) 32 ≡ each = add_u64_lt (payload + k) 32 (omega arith) in
    let all : mul_u64 each packets ≡ each * packets = mul_u64_lt each packets (omega arith) in
    let total = mul_u64_lt (each * packets) (links hops) small in
    let part : k * packets ≤ each * packets = omega arith in
    (
      rw (header, payload_sum, sum, all, total) refl,
      rw (header, mul_u64_lt k packets (omega arith)) refl,
    )

module _ {W : Type 0} ⦃f : F64 W⦄ (laws : IsIeee W) where
  simulate_chain-figures :
      (hops : ℕ) (mode : ProtocolMode) (payload packets : ℕ)
      → 0 < packets
      → packets ≤ 2 ^ 53
      → bytes_sent hops mode payload packets < 2 ^ 64
      → (r : BenchmarkReport W) × (simulate_chain hops mode payload packets ≡ ok r)
        × (r.total_tx_bytes ≡ bytes_sent hops mode payload packets)
        × (r.path_header_bytes ≡ hops * hop_bytes mode * packets)
  unfolding simulate_chain
  simulate_chain-figures hops mode payload packets some_packet few small =
      let latencies = map (latency hops payload) (count_up 0 packets) in
      let size : length latencies ≡ packets =
        length-map (latency hops payload) (count_up 0 packets) ∙ length-count_up 0 packets in
      let (p50, is_p50) = percentile-ok latencies 500 laws (omega arith) (omega arith) in
      let (p95, is_p95) = percentile-ok latencies 950 laws (omega arith) (omega arith) in
      let (total, header) = figures hops mode payload packets some_packet small in
      rw (is_p50, is_p95) (_, refl, total, header)

  -- Let `f64` keep the laws of `IsIeee`, let there be from 1 to 2^53 packets, and let the bytes
  -- that the mode of node ids sends over all links fit in 64 bits. Then the comparison returns,
  -- the headers of the label mode take three bytes less for each hop and packet, and what it
  -- sends over the links of the chain takes as many bytes less for each link.
  pub comparison-savings :
      (hops payload packets : ℕ)
      → 0 < packets
      → packets ≤ 2 ^ 53
      → bytes_sent hops dsr payload packets < 2 ^ 64
      → (r : ComparisonReport W) × (comparison hops payload packets ≡ ok r)
        × (r.path_header_savings_bytes ≡ 3 * hops * packets)
        × (r.total_tx_savings_bytes ≡ 3 * hops * packets * links hops)
  unfolding comparison
  comparison-savings hops payload packets some_packet few small =
      let (d, is_d, d_total, d_header) =
        simulate_chain-figures hops dsr payload packets some_packet few small in
      let (l, is_l, l_total, l_header) =
        simulate_chain-figures hops dl_dsr payload packets some_packet few (omega arith) in
      rw (is_d, is_l) (_, refl, omega arith, omega arith)

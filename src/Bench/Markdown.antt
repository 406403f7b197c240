-- ===== src/Bench/Markdown.antt =====
-- The benchmark's summaries in Markdown (crates/dldsr-bench/src/report.rs). How numbers are printed
-- is outside.
use dl_dsr_rs.Base.{ℕ, List, [], ◌∷◌, ◌++◌, String}
use dl_dsr_rs.Core.Socket.{Text, bytes}
use dl_dsr_rs.Core.Packet.{print_mode}
use dl_dsr_rs.Core.Simulation.{BenchmarkReport}
use dl_dsr_rs.Bench.{ComparisonReport}

-- `{}` at an integer, and `{:.n}` at an `f64`.
pub record Format (W : Type 0) : Type 0 where
  pub int : ℕ → Text
  pub fixed : ℕ → W → Text

abbrev concat : List Text → Text
concat [] = []
concat (t ∷ ts) = t ++ concat ts

abbrev newline : ℕ
newline = 10

abbrev line : String → Text
line s = bytes s ++ (newline ∷ [])

abbrev cells : List Text → Text
cells [] = newline ∷ []
cells (t ∷ ts) = bytes " " ++ (t ++ (bytes " |" ++ cells ts))

-- A row of a table.
abbrev row : List Text → Text
row ts = bytes "|" ++ cells ts

module _ {W : Type 0} (format : Format W) where
  -- `markdown`
  unfoldable pub markdown : BenchmarkReport W → Text
  markdown report =
      let int = format.int in
      let fixed = format.fixed in
      concat (
        line "# DL-DSR Benchmark Summary"
        ∷ line ""
        ∷ line "| metric | value |"
        ∷ line "| --- | ---: |"
        ∷ row (bytes "mode" ∷ print_mode report.mode ∷ [])
        ∷ row (bytes "hops" ∷ int report.hops ∷ [])
        ∷ row (bytes "payload_size" ∷ int report.payload_size ∷ [])
        ∷ row (bytes "packets" ∷ int report.packet_count ∷ [])
        ∷ row (bytes "total_tx_bytes" ∷ int report.total_tx_bytes ∷ [])
        ∷ row (bytes "total_rx_bytes" ∷ int report.total_rx_bytes ∷ [])
        ∷ row (bytes "path_header_bytes" ∷ int report.path_header_bytes ∷ [])
        ∷ row (bytes "delivered_packets" ∷ int report.delivered_packets ∷ [])
        ∷ row (bytes "lost_packets" ∷ int report.lost_packets ∷ [])
        ∷ row (bytes "delivery_ratio" ∷ fixed 3 report.delivery_ratio ∷ [])
        ∷ row (bytes "average_latency_ms" ∷ fixed 3 report.average_latency_ms ∷ [])
        ∷ row (bytes "p50_latency_ms" ∷ fixed 3 report.p50_latency_ms ∷ [])
        ∷ row (bytes "p95_latency_ms" ∷ fixed 3 report.p95_latency_ms ∷ [])
        ∷ row (bytes "estimated_energy_units" ∷ fixed 1 report.estimated_energy_units ∷ [])
        ∷ line ""
        ∷ line "Energy is a transparent proxy: tx_bytes * 1.0 + rx_bytes * 0.5."
        ∷ [])

  -- `comparison_markdown`
  unfoldable pub comparison_markdown : ComparisonReport W → Text
  comparison_markdown report =
      let int = format.int in
      let fixed = format.fixed in
      concat (
        line "# DSR vs DL-DSR Benchmark Summary"
        ∷ line ""
        ∷ line "| metric | DSR | DL-DSR |"
        ∷ line "| --- | ---: | ---: |"
        ∷ row (bytes "hops" ∷ int report.dsr.hops ∷ int report.dsr.hops ∷ [])
        ∷ row
            (bytes "payload_size" ∷ int report.dsr.payload_size ∷ int report.dsr.payload_size ∷ [])
        ∷ row (bytes "packets" ∷ int report.dsr.packet_count ∷ int report.dsr.packet_count ∷ [])
        ∷ row (
            bytes "total_tx_bytes"
            ∷ int report.dsr.total_tx_bytes
            ∷ int report.dldsr.total_tx_bytes
            ∷ [])
        ∷ row (
            bytes "total_rx_bytes"
            ∷ int report.dsr.total_rx_bytes
            ∷ int report.dldsr.total_rx_bytes
            ∷ [])
        ∷ row (
            bytes "path_header_bytes"
            ∷ int report.dsr.path_header_bytes
            ∷ int report.dldsr.path_header_bytes
            ∷ [])
        ∷ row (
            bytes "delivered_packets"
            ∷ int report.dsr.delivered_packets
            ∷ int report.dldsr.delivered_packets
            ∷ [])
        ∷ row (
            bytes "delivery_ratio"
            ∷ fixed 3 report.dsr.delivery_ratio
            ∷ fixed 3 report.dldsr.delivery_ratio
            ∷ [])
        ∷ row (
            bytes "average_latency_ms"
            ∷ fixed 3 report.dsr.average_latency_ms
            ∷ fixed 3 report.dldsr.average_latency_ms
            ∷ [])
        ∷ row (
            bytes "p95_latency_ms"
            ∷ fixed 3 report.dsr.p95_latency_ms
            ∷ fixed 3 report.dldsr.p95_latency_ms
            ∷ [])
        ∷ row (
            bytes "estimated_energy_units"
            ∷ fixed 1 report.dsr.estimated_energy_units
            ∷ fixed 1 report.dldsr.estimated_energy_units
            ∷ [])
        ∷ line ""
        ∷ line "| savings | value |"
        ∷ line "| --- | ---: |"
        ∷ row (bytes "path_header_savings_bytes" ∷ int report.path_header_savings_bytes ∷ [])
        ∷ row (bytes "total_tx_savings_bytes" ∷ int report.total_tx_savings_bytes ∷ [])
        ∷ row (
            bytes "estimated_energy_savings_units"
            ∷ fixed 1 report.estimated_energy_savings_units
            ∷ [])
        ∷ line ""
        ∷ line "Energy is a transparent proxy: tx_bytes * 1.0 + rx_bytes * 0.5."
        ∷ [])

-- ===== src/Node.antt =====
-- The crate `dldsr-node` (crates/dldsr-node/src): the protocol of a node and its daemon.
pub mod State
pub mod Lookup
pub mod Origin
pub mod Discovery
pub mod Hello
pub mod Rreq
pub mod Rrep
pub mod Data
pub mod Handle
pub mod Daemon
pub mod Config
pub mod Main
pub mod Startup
pub mod Control
pub mod Request
pub mod Snapshot
pub mod Frame
pub mod Pending
pub mod Queued
pub mod Tabled
pub mod Agreement
pub mod Reach
pub mod Stable
pub mod Copies
pub mod Flood
pub mod Reply
pub mod Flush
pub mod Fate
pub mod GiveUp
pub mod Accept

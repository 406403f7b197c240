-- ===== src/Core.antt =====
-- The crate `dldsr-core` (crates/dldsr-core/src): the packets, the topology and the configuration,
-- the tables of neighbours and labels, the route cache, the requests seen and the counters.
pub mod Socket
pub mod Packet
pub mod Topology
pub mod Tables
pub mod Routes
pub mod Seen
pub mod Metrics
pub mod Float
pub mod Energy
pub mod Simulation

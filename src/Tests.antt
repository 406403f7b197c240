-- ===== src/Tests.antt =====
-- The unit tests of the crates (crates/dldsr-core/src/lib.rs, crates/dldsr-node/src/protocol.rs),
-- run on the model, and the inputs at which the theorems are applied.
pub mod Inputs
pub mod Program
pub mod Codecs
pub mod Wire
mod Protocol
mod Witnesses
mod Handlers
mod Tables
mod Discovery
mod Fleet
mod Startup
mod Figures

-- ===== src/Tests.antt =====
-- Sample data, and the theorems at concrete inputs.
pub mod Sample
mod Core
mod Model
mod Engine
mod Reports
mod Feeds
mod Sim
mod Matching
mod Ports
mod Kernel
mod Live
mod Network
mod EventStore
mod Rounding
mod Signs

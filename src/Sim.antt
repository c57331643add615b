-- ===== src/Sim.antt =====
-- backtesting-simulation/crates/coinext-sim/src/lib.rs: how the simulated venue takes orders and
-- cancellations, and the queue of its delayed reports. Matching against market events is not modelled.
pub mod Brokerage
pub mod Queue
pub mod Intake
pub mod Tick
pub mod Matching
pub mod Market

-- ===== src/Core.antt =====
-- The crate coinext-core (foundation/crates/coinext-core/src): value types, errors, time, clock.
pub mod Error
pub mod Decimal
pub mod Price
pub mod Quantity
pub mod Currency
pub mod Money
pub mod Time
pub mod Clock
pub mod SystemClock

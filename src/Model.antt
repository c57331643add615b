-- ===== src/Model.antt =====
-- The crate coinext-model (foundation/crates/coinext-model/src): orders, fills, positions, books.
pub mod Enums
pub mod Ids
pub mod Fill
pub mod Order
pub mod MarketData
pub mod OrderBook
pub mod Instrument
pub mod Account
pub mod Position

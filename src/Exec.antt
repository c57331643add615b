-- ===== src/Exec.antt =====
-- execution-live/crates/coinext-exec-engine/src/lib.rs: the order management between the strategies
-- and the venue. The engine's cells and the store that it shares are one state, passed explicitly.
pub mod Session
pub mod Submit
pub mod Report
use coinext.Prelude.{ℕ, List, []}
use coinext.Core.Decimal.{Decimals}
use coinext.Model.Ids.{InstrumentId, TradeId}
use coinext.Cache.{Cache}

pub record ExecutionEngine ⦃d : Decimals⦄ : Type 0 where
  pub cache : Cache
  pub seen_trade_ids : List TradeId
  pub bought_today : List ((InstrumentId × ℕ) × d.Decimal)
  pub close_by_day : List ((InstrumentId × ℕ) × d.Decimal)

module _ ⦃d : Decimals⦄ where
  unfoldable pub new : Cache → ExecutionEngine
  new c = record { cache = c; seen_trade_ids = []; bought_today = []; close_by_day = [] }

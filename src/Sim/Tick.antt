-- ===== src/Sim/Tick.antt =====
-- backtesting-simulation/crates/coinext-sim/src/lib.rs, `on_market`: the prices that it reads off an
-- event, and the entries of the lists that it collects.
use coinext.Prelude.{Bool, false, Option, none, some}
use coinext.Core.Price.{Price}
use coinext.Core.Quantity.{Quantity}
use coinext.Model.Enums.{LiquiditySide}
use coinext.Model.MarketData.{MarketEvent, mid}

-- The prices of an event, and its volume if it is a bar.
pub record Tick : Type 0 where
  pub low : Price
  pub high : Price
  pub close : Price
  pub open_px : Price
  pub volume : Option Quantity

unfoldable pub tick_of : MarketEvent → Option Tick
tick_of (MarketEvent.bar b) = some (record {
  low = b.low;
  high = b.high;
  close = b.close;
  open_px = b.open_px;
  volume = some b.volume;
})
tick_of (MarketEvent.trade t) =
    some
      (record { low = t.price; high = t.price; close = t.price; open_px = t.price; volume = none })
tick_of (MarketEvent.quote q) =
    some (record { low = q.bid; high = q.ask; close = mid q; open_px = mid q; volume = none })
tick_of (MarketEvent.delta u) = none

pub record Decision : Type 0 where
  pub fill_px : Price
  pub fill_qty : Quantity
  pub new_queue : Option Quantity
  pub liquidity : LiquiditySide

-- The flag to clear, the stop limit to activate, the new extreme and trigger of a trail, and the fill.
pub record Outcome : Type 0 where
  pub clear_pending : Bool
  pub activate : Bool
  pub ratchet : Option (Price × Price)
  pub decision : Option Decision

abbrev pub idle : Outcome
idle = record { clear_pending = false; activate = false; ratchet = none; decision = none }

-- ===== src/Ports/Context.antt =====
-- foundation/crates/coinext-ports/src/context.rs: `StrategyContext`. The clock and the store that it
-- shares are arguments; its reads of the store are those of Cache and have no definition here.
use coinext.Prelude.{List, [], ◌∷◌, ◌++◌, Option, none, some}
use coinext.Core.Error.{unwrap_or}
use coinext.Core.Decimal.{Decimals}
use coinext.Core.Price
use coinext.Core.Price.{Price}
use coinext.Core.Quantity.{Quantity}
use coinext.Core.Time.{UnixNanos}
use coinext.Model.Enums.{OrderSide, buy, sell, TimeInForce}
use coinext.Model.Ids.{StrategyId, ClientOrderId, InstrumentId}
use coinext.Model.Order.{Order}
use coinext.Cache
use coinext.Cache.{Cache}
use coinext.Ports.{StrategyCommand}
use coinext.Ports.Factory
use coinext.Ports.Factory.{OrderFactory, no_flags}

pub record StrategyContext : Type 0 where
  pub strategy_id : StrategyId
  pub factory : OrderFactory
  pub outbox : List StrategyCommand

unfoldable pub new : StrategyId → StrategyContext
unfolding Factory.new
new id = record { strategy_id = id; factory = Factory.new id; outbox = [] }

abbrev queue_command : StrategyCommand → StrategyContext → StrategyContext
queue_command cmd ctx = record ctx { outbox = ctx.outbox ++ (cmd ∷ []) }

unfoldable pub submit : Order → StrategyContext → StrategyContext
submit o ctx = queue_command (StrategyCommand.submit o) ctx

unfoldable pub cancel : ClientOrderId → StrategyContext → StrategyContext
cancel id ctx = queue_command (StrategyCommand.cancel id) ctx

unfoldable pub modify :
    ClientOrderId → Option Quantity → Option Price → StrategyContext → StrategyContext
modify id quantity price ctx = queue_command (StrategyCommand.modify id quantity price) ctx

unfoldable pub drain_outbox : StrategyContext → StrategyContext × List StrategyCommand
drain_outbox ctx = (record ctx { outbox = [] }, ctx.outbox)

-- The order that the factory made goes to the outbox, and its id to the caller.
abbrev submit_minted : StrategyContext → OrderFactory × Order → StrategyContext × ClientOrderId
submit_minted ctx (factory, o) = (submit o (record ctx { factory = factory }), o.client_order_id)

module _ (now : UnixNanos) (instrument_id : InstrumentId) (side : OrderSide) (qty : Quantity) where
  unfoldable pub submit_market : StrategyContext → StrategyContext × ClientOrderId
  unfolding submit Factory.market
  submit_market ctx = submit_minted ctx (Factory.market ctx.factory instrument_id side qty now)

  unfoldable pub submit_limit : Price → StrategyContext → StrategyContext × ClientOrderId
  unfolding submit Factory.limit
  submit_limit price ctx =
      submit_minted ctx
        (Factory.limit ctx.factory instrument_id side qty price TimeInForce.gtc no_flags now)

  unfoldable pub submit_stop_market : Price → StrategyContext → StrategyContext × ClientOrderId
  unfolding submit Factory.stop_market
  submit_stop_market trigger ctx =
      submit_minted ctx (Factory.stop_market ctx.factory instrument_id side qty trigger now)

  unfoldable pub submit_stop_limit :
      Price → Price → StrategyContext → StrategyContext × ClientOrderId
  unfolding submit Factory.stop_limit
  submit_stop_limit trigger price ctx =
      submit_minted ctx (Factory.stop_limit ctx.factory instrument_id side qty trigger price now)

  -- The first stop of a trail: the offset from the mark, or the offset itself.
  abbrev pub trail_trigger : OrderSide → Option Price → Price → Price
  trail_trigger sell (some m) offset = unwrap_or (Price.checked_sub m offset) offset
  trail_trigger buy (some m) offset = unwrap_or (Price.checked_add m offset) offset
  trail_trigger _ none offset = offset

  module _ ⦃d : Decimals⦄ where
    unfoldable pub submit_trailing_stop :
        Cache → Price → StrategyContext → StrategyContext × ClientOrderId
    unfolding submit Factory.trailing_stop
    submit_trailing_stop cache offset ctx =
        let trigger = trail_trigger side (Cache.mark cache instrument_id) offset in
        submit_minted ctx (Factory.trailing_stop ctx.factory instrument_id side qty trigger now)

-- ===== src/Tests/Engine.antt =====
-- The theorems on the risk gate, the execution engine and the depth stream at concrete inputs.
use coinext.Prelude.{ℕ, ◌+◌, ◌≡◌, ◌≢◌, refl, false, none, some, [], ◌∷◌, arith, ◌⊎◌}
use coinext.Prelude.Int.{pos, ◌+ℤ◌}
use coinext.Prelude.Maps.{get, string_eq}
use coinext.Core.Price
use coinext.Core.Quantity
use coinext.Core.Money
use coinext.Model.Ids.{instrument_id_eq}
use coinext.Model.Order
use coinext.Model.Order.{Order, OrderEvent}
use coinext.Model.Position
use coinext.Model.Position.{Position}
use coinext.Model.Instrument.{Instrument, expiry_ns, asset_class, min_notional, multiplier}
use coinext.Cache
use coinext.Cache.{Cache}
use coinext.Portfolio.{portfolio_state}
use coinext.Ports.{Venue}
use coinext.RiskGate
use coinext.RiskGate.{RiskGate, risk_engine}
use coinext.RiskGate.Check as Check
use coinext.Exec.{ExecutionEngine}
use coinext.Exec.Submit.{submit, route}
use coinext.Exec.Submit.Gate as Gate
use coinext.Exec.Submit.Once.{submit_twice}
use coinext.Tests.Sample.{sample_decimals, btc_usdt, usdt, price, quantity, pair, init}

-- A gate that limits an order to 1000.00 and a position to 5.000, and a venue that counts the orders it gets.
abbrev gate : RiskGate
gate = record {
  limits = record {
    max_position_qty = some (quantity 5000);
    max_position_notional = none;
    max_order_notional = some (record { raw = pos 100000; currency = usdt });
    max_orders_per_sec = none;
    max_gross_exposure = none;
    leverage = none;
    maintenance_margin_rate = none;
  };
  killed = false;
}

abbrev venue : Venue
venue = record { State = ℕ; on_submit = λ c o n. n + 1; on_cancel = λ id n. n }

abbrev cache : Cache
cache = record {
  instruments = (btc_usdt, pair) ∷ [];
  quotes = [];
  marks = (btc_usdt, price 10000) ∷ [];
  order_books = [];
  orders = [];
  positions = [];
  account = none;
}

abbrev engine : ExecutionEngine
engine = record { cache = cache; seen_trade_ids = []; bought_today = []; close_by_day = [] }

abbrev order : Order
order = Order.new "s" init

submit_cases_example :
    Gate.Held
      (risk_engine gate)
      (portfolio_state usdt)
      venue
      order
      2
      (engine, 0)
      (submit (risk_engine gate) (portfolio_state usdt) venue order 2 (engine, 0))
    ⊎ ((inst : Instrument) × Gate.Cleared
          (risk_engine gate)
          (portfolio_state usdt)
          venue
          inst
          order
          2
          engine
        × (submit (risk_engine gate) (portfolio_state usdt) venue order 2 (engine, 0)
            ≡ route (risk_engine gate) (portfolio_state usdt) venue order 2 (
              Gate.observed (risk_engine gate) (portfolio_state usdt) venue inst order 2 engine,
              0,
            )))
submit_cases_example =
    Gate.submit_cases (risk_engine gate) (portfolio_state usdt) venue order 2 (engine, 0)

one_event :
    (submit (risk_engine gate) (portfolio_state usdt) venue order 2 (engine, 0)).1
    ≡ OrderEvent.submitted 2 ∷ []
unfolding submit Cache.order get Cache.instrument Order.new expiry_ns asset_class RiskGate.check
    RiskGate.reference_price Cache.mark min_notional Money.amount RiskGate.order_notional
    Price.as_decimal Quantity.as_decimal multiplier RiskGate.signed_position_qty Cache.position
    RiskGate.order_delta Position.signed_fill ◌+ℤ◌
one_event = refl

some_event : (submit (risk_engine gate) (portfolio_state usdt) venue order 2 (engine, 0)).1 ≢ []
some_event e = absurd (ground (arith, one_event, e))

submit_twice_example :
    submit
      (risk_engine gate)
      (portfolio_state usdt)
      venue
      order
      9
      (submit (risk_engine gate) (portfolio_state usdt) venue order 2 (engine, 0)).0
    ≡ ((submit (risk_engine gate) (portfolio_state usdt) venue order 2 (engine, 0)).0, [])
submit_twice_example =
    submit_twice (risk_engine gate) (portfolio_state usdt) venue order order 2 9 (engine, 0)
      some_event refl

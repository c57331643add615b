-- ===== src/Tests/Live.antt =====
-- The theorems on the live kernel at concrete inputs.
use coinext.Prelude.{ℕ, ◌⊎◌, false, none, Option, List, [], ◌∷◌}
use coinext.Core.Time.{UnixNanos}
use coinext.Core.SystemClock
use coinext.Cache.{Cache}
use coinext.Exec as Exec
use coinext.Model.Instrument.{Instrument}
use coinext.Model.Order
use coinext.Model.Order.{Order}
use coinext.Ports.{unlimited}
use coinext.Ports.Context
use coinext.Kernel.{done, submits, Strategy}
use coinext.Kernel.Live.{PortError, ExecutionClient, DataClient, LiveKernel, route_submit}
use coinext.Kernel.Live.Gate.{IsClear, Kept, Sent, route_submit_lem}
use coinext.Tests.Sample.{sample_decimals, btc_usdt, usdt, price, pair, init}

-- A client that keeps the orders that it was sent, and answers without error.
abbrev recorder : ExecutionClient
recorder = record {
  State = List Order;
  connect = λ v. (v, none);
  disconnect = λ v. (v, none);
  submit_order = λ o v. (o ∷ v, none);
  cancel_order = λ id iid v. (v, none);
  reconcile = λ v. (v, ([], none));
}

abbrev feed : DataClient
feed = record { State = ℕ; connect = λ v. (v, none); disconnect = λ v. (v, none) }

-- Sends an order at every trade.
abbrev buyer : Strategy ℕ
buyer = record {
  on_start = λ s. done s;
  on_quote = λ q s. done s;
  on_trade = λ t s. submits (Order.new "s" init) (done s);
  on_bar = λ b s. done s;
  on_book = λ b s. done s;
  on_order_event = λ ev s. done s;
  on_order_filled = λ f s. done s;
  on_timer = λ t s. done s;
  on_stop = λ s. done s;
}

abbrev cache : Cache
cache = record {
  instruments = (btc_usdt, pair) ∷ [];
  quotes = [];
  marks = (btc_usdt, price 10000) ∷ [];
  order_books = [];
  orders = [];
  positions = [];
  account = none;
}

abbrev wall : ℕ → UnixNanos
wall n = n

abbrev released : LiveKernel ℕ recorder feed
released = record {
  clock = SystemClock.new;
  engine = Exec.new cache;
  risk = record { limits = unlimited; killed = false };
  settle = usdt;
  state = 0;
  ctx = Context.new "s";
  exec_client = [];
  data_client = 0;
}

abbrev routed : LiveKernel ℕ recorder feed × Option PortError
routed = route_submit wall recorder feed buyer (Order.new "s" init) 5 released

route_submit_lem_example :
    (Kept wall recorder feed buyer released routed
      ⊎ ((inst : Instrument) × IsClear wall recorder feed buyer (Order.new "s" init) released inst
          × Sent wall recorder feed buyer (Order.new "s" init) 5 released routed))
    × ((inst : Instrument)
        → IsClear wall recorder feed buyer (Order.new "s" init) released inst
        → Sent wall recorder feed buyer (Order.new "s" init) 5 released routed)
route_submit_lem_example = route_submit_lem wall recorder feed buyer (Order.new "s" init) 5 released

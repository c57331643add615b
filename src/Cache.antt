-- ===== src/Cache.antt =====
-- foundation/crates/coinext-cache/src/lib.rs: the central store of a process. A reference into the
-- store is a function from the store to the changed store.
use coinext.Prelude.{Bool, not, Option, none, some, List, [], keep, map}
use coinext.Prelude.Maps.{get, insert, string_eq}
use coinext.Core.Decimal.{Decimals}
use coinext.Core.Price.{Price}
use coinext.Model.Enums.{is_terminal}
use coinext.Model.Ids.{InstrumentId, ClientOrderId, instrument_id_eq}
use coinext.Model.Instrument.{Instrument, id_of}
use coinext.Model.MarketData.{QuoteTick, mid, OrderBookDelta}
use coinext.Model.OrderBook
use coinext.Model.OrderBook.{OrderBook}
use coinext.Model.Order.{Order}
use coinext.Model.Position.{Position}
use coinext.Model.Account.{AccountState}

pub record Cache ⦃d : Decimals⦄ : Type 0 where
  pub instruments : List (InstrumentId × Instrument)
  pub quotes : List (InstrumentId × QuoteTick)
  pub marks : List (InstrumentId × Price)
  pub order_books : List (InstrumentId × OrderBook)
  pub orders : List (ClientOrderId × Order)
  pub positions : List (InstrumentId × Position)
  pub account : Option AccountState

module _ ⦃d : Decimals⦄ where
  unfoldable pub new : Cache
  new = record {
    instruments = [];
    quotes = [];
    marks = [];
    order_books = [];
    orders = [];
    positions = [];
    account = none;
  }

  unfoldable pub add_instrument : Instrument → Cache → Cache
  add_instrument inst c = record c { instruments = insert (id_of inst) inst c.instruments }

  unfoldable pub instrument : Cache → InstrumentId → Option Instrument
  instrument c id = get id c.instruments

  -- The quote, and its mid as the mark.
  unfoldable pub add_quote : QuoteTick → Cache → Cache
  add_quote q c = record c {
    quotes = insert q.instrument_id q c.quotes;
    marks = insert q.instrument_id (mid q) c.marks;
  }

  unfoldable pub quote : Cache → InstrumentId → Option QuoteTick
  quote c id = get id c.quotes

  unfoldable pub set_mark : InstrumentId → Price → Cache → Cache
  set_mark id p c = record c { marks = insert id p c.marks }

  unfoldable pub mark : Cache → InstrumentId → Option Price
  mark c id = get id c.marks

  abbrev pub book_or_new : Option OrderBook → InstrumentId → OrderBook
  book_or_new none id = OrderBook.new id
  book_or_new (some b) id = b

  unfoldable pub order_book : Cache → InstrumentId → Option OrderBook
  order_book c id = get id c.order_books

  -- Whether the delta was taken, and the store.
  unfoldable pub apply_book_delta : OrderBookDelta → Cache → Bool × Cache
  unfolding order_book
  apply_book_delta delta c =
      let (b, taken) =
        OrderBook.apply (book_or_new (order_book c delta.instrument_id) delta.instrument_id)
          delta in
      (taken, record c { order_books = insert delta.instrument_id b c.order_books })

  unfoldable pub add_order : Order → Cache → Cache
  add_order o c = record c { orders = insert o.client_order_id o c.orders }

  unfoldable pub order : Cache → ClientOrderId → Option Order
  order c id = get id c.orders

  -- A write through `order_mut`.
  unfoldable pub set_order : ClientOrderId → Order → Cache → Cache
  set_order id o c = record c { orders = insert id o c.orders }

  abbrev second {ℓ κ} : {A : Type ℓ} {B : Type κ} → A × B → B
  second p = p.1

  unfoldable pub open_orders : Cache → List Order
  open_orders c = keep (λ o. not (is_terminal o.status)) (map second c.orders)

  unfoldable pub upsert_position : Position → Cache → Cache
  upsert_position p c = record c { positions = insert p.instrument_id p c.positions }

  unfoldable pub position : Cache → InstrumentId → Option Position
  position c id = get id c.positions

  unfoldable pub position_values : Cache → List Position
  position_values c = map second c.positions

  unfoldable pub set_account : AccountState → Cache → Cache
  set_account a c = record c { account = some a }

-- ===== src/DataEngine.antt =====
-- market-data/crates/coinext-data-engine/src/lib.rs: the store after a market event, and the message
-- that is published then.
pub mod Marks
use coinext.Prelude.{Bool}
use coinext.Core.Decimal.{Decimals}
use coinext.Model.MarketData.{MarketEvent}
use coinext.Cache
use coinext.Cache.{Cache}
use coinext.Ports.Bus
use coinext.Ports.Bus.{BusMsg, Topic, InProcBus}

abbrev pub topic_of : MarketEvent → Topic
topic_of (MarketEvent.quote q) = Topic.quote q.instrument_id
topic_of (MarketEvent.trade t) = Topic.trade t.instrument_id
topic_of (MarketEvent.bar b) = Topic.bar b.bar_type
topic_of (MarketEvent.delta u) = Topic.delta u.instrument_id

abbrev pub message_of : MarketEvent → BusMsg
message_of (MarketEvent.quote q) = BusMsg.quote q
message_of (MarketEvent.trade t) = BusMsg.trade t
message_of (MarketEvent.bar b) = BusMsg.bar b
message_of (MarketEvent.delta u) = BusMsg.delta u

module _ ⦃d : Decimals⦄ where
  unfoldable pub update_cache : MarketEvent → Cache → Cache
  unfolding Cache.add_quote Cache.set_mark Cache.apply_book_delta
  update_cache (MarketEvent.quote q) c = Cache.add_quote q c
  update_cache (MarketEvent.trade t) c = Cache.set_mark t.instrument_id t.price c
  update_cache (MarketEvent.bar b) c = Cache.set_mark b.bar_type.instrument_id b.close c
  update_cache (MarketEvent.delta u) c = (Cache.apply_book_delta u c).1

  unfoldable pub process : {S : Type 0} → MarketEvent → Cache → InProcBus S → Cache × InProcBus S
  unfolding update_cache
  process {S} ev c bus = (update_cache ev c, Bus.publish S (topic_of ev) (message_of ev) bus)

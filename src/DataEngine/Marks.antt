-- ===== src/DataEngine/Marks.antt =====
-- market-data/crates/coinext-data-engine/src/lib.rs: the mark that a run of market events leaves.
use coinext.Prelude.{◌≡◌, refl, Option, none, some, List, [], ◌∷◌, arith, if◌then◌else◌}
use coinext.Prelude.Maps.{◌==◌, get-insert}
use coinext.Core.Decimal.{Decimals}
use coinext.Core.Price.{Price}
use coinext.Model.Ids.{InstrumentId, instrument_id_eq}
use coinext.Model.MarketData.{MarketEvent, instrument_id, mid}
use coinext.Cache
use coinext.Cache.{Cache}
use coinext.DataEngine.{update_cache}

-- The price at which an event marks its instrument.
abbrev pub mark_of : MarketEvent → Option Price
mark_of (MarketEvent.quote q) = some (mid q)
mark_of (MarketEvent.trade t) = some t.price
mark_of (MarketEvent.bar b) = some b.close
mark_of (MarketEvent.delta u) = none

abbrev pub or_before : Option Price → Option Price → Option Price
or_before none p = p
or_before (some q) p = some q

-- The last mark of `id` among events, or the one from before them.
abbrev pub last_mark : InstrumentId → List MarketEvent → Option Price → Option Price
last_mark id [] p = p
last_mark id (ev ∷ evs) p =
    last_mark id evs (if instrument_id ev == id then or_before (mark_of ev) p else p)

module _ ⦃d : Decimals⦄ where
  abbrev pub update_all : List MarketEvent → Cache → Cache
  update_all [] c = c
  update_all (ev ∷ evs) c = update_all evs (update_cache ev c)

  mark-update_cache :
      (id : InstrumentId) (ev : MarketEvent) (c : Cache)
      → Cache.mark (update_cache ev c) id ≡ (
          if instrument_id ev == id
          then or_before (mark_of ev) (Cache.mark c id)
          else Cache.mark c id)
  unfolding update_cache Cache.mark instrument_id
  mark-update_cache id (MarketEvent.quote q) c = get-insert q.instrument_id id (mid q) c.marks
  mark-update_cache id (MarketEvent.trade t) c = get-insert t.instrument_id id t.price c.marks
  mark-update_cache id (MarketEvent.bar b) c =
      get-insert b.bar_type.instrument_id id b.close c.marks
  mark-update_cache id (MarketEvent.delta u) c = ground arith

  -- After any market events the mark of an instrument is that of its last quote, trade or bar, and the
  -- old one if there was none.
  pub mark-update_all :
      (id : InstrumentId) (evs : List MarketEvent) (c : Cache)
      → Cache.mark (update_all evs c) id ≡ last_mark id evs (Cache.mark c id)
  mark-update_all id [] c = refl
  mark-update_all id (ev ∷ evs) c =
      rw (← mark-update_cache id ev c) (mark-update_all id evs (update_cache ev c))

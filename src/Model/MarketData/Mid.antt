-- ===== src/Model/MarketData/Mid.antt =====
-- foundation/crates/coinext-model/src/market_data.rs: where the mid price of a quote lies.
use coinext.Prelude.{◌≡◌, ◌+◌, ◌-◌, ◌*◌, ◌≤◌, ◌<◌, ◌^◌, arith}
use coinext.Prelude.Int.{pos, ◌≤ℤ◌, pos_part, ◌+ℤ◌}
use coinext.Core.Price
use coinext.Core.Price.RoundTrip.{IsValid}
use coinext.Model.MarketData.{QuoteTick, mid}

module _ (q : QuoteTick) (b : IsValid q.bid) (a : IsValid q.ask) where
  -- If the two raw prices add up to an i64, the mid price of a quote that is not crossed lies
  -- between the bid and the ask, within half a unit of the exact middle.
  mid_between :
      q.bid.raw ≤ℤ q.ask.raw
      → pos_part q.bid.raw + pos_part q.ask.raw < 2 ^ 63
      → (q.bid.raw ≤ℤ (mid q).raw)
        × ((mid q).raw ≤ℤ q.ask.raw)
        × (2 * pos_part (mid q).raw ≤ pos_part q.bid.raw + pos_part q.ask.raw)
        × (pos_part q.bid.raw + pos_part q.ask.raw ≤ 2 * pos_part (mid q).raw + 1)
  unfolding mid Price.from_raw ◌+ℤ◌
  mid_between le small = ground arith

  -- If their sum is no i64 it saturates, and the mid price is a constant, whatever the quote is.
  pub mid_saturates :
      2 ^ 63 ≤ pos_part q.bid.raw + pos_part q.ask.raw → (mid q).raw ≡ pos (2 ^ 62 - 1)
  unfolding mid Price.from_raw ◌+ℤ◌
  mid_saturates big = ground arith

-- ===== src/Exec/Session.antt =====
-- execution-live/crates/coinext-exec-engine/src/lib.rs: session days, the daily price limit and the
-- T+1 ledger of the Shanghai and Shenzhen exchanges. A day key is a u32; texts are read as the codes
-- of their characters where the code looks into them.
pub mod Days
use Prim.Native.Char.{code}
use Prim.Native.String
use Prim.Native.String.{◌++◌}
use coinext.Prelude.{
  ℕ, zero, suc, ◌+◌, ◌-◌, ◌*◌, ◌/◌, ◌%◌, ◌^◌, Bool, true, false, not, ◌&&◌, ◌||◌, Option, none,
  some, List, [], ◌∷◌, String, keep, map, length, ltb, leb, nat_beq, if◌then◌else◌,
}
use coinext.Prelude.Int.{pos}
use coinext.Prelude.Maps.{Eq, nat_eq, pair_eq, string_eq, ◌==◌, get, insert}
use coinext.Core.Decimal.{Decimals, lt, le, max}
use coinext.Core.Price
use coinext.Core.Price.{Price}
use coinext.Core.Quantity
use coinext.Core.Time.{UnixNanos}
use coinext.Model.Enums.{
  AssetClass, OrderSide, OrderType, PositionSide, buy, sell, long, short, flat,
}
use coinext.Model.Ids.{InstrumentId, instrument_id_eq}
use coinext.Model.Order.{Order}
use coinext.Model.Position.{Position, is_long}
use coinext.Model.Instrument.{Instrument, asset_class, id_of}
use coinext.Cache
use coinext.Cache.{Cache}
use coinext.Ports.{Portfolio, DenyReason, to_text}
use coinext.Exec.{ExecutionEngine}

instance abbrev pub day_eq : Eq (InstrumentId × ℕ)
day_eq = pair_eq instrument_id_eq nat_eq

abbrev is_equity : AssetClass → Bool
is_equity AssetClass.equity = true
is_equity _ = false

unfoldable pub day_key_utc : UnixNanos → ℕ
day_key_utc now = now / 1000000000 / 86400 % 2 ^ 32

unfoldable pub day_key_shanghai : UnixNanos → ℕ
day_key_shanghai now = (now / 1000000000 + 8 * 3600) / 86400 % 2 ^ 32

abbrev pub codes : String → List ℕ
codes String.[] = []
codes (String.◌∷◌ c s) = code c ∷ codes s

-- `to_ascii_uppercase`
abbrev pub upper : ℕ → ℕ
upper c = if leb b'a' c && leb c b'z' then c - 32 else c

abbrev pub is_digit : ℕ → Bool
is_digit c = leb b'0' c && leb c b'9'

abbrev pub starts_with : List ℕ → List ℕ → Bool
starts_with s [] = true
starts_with [] (c ∷ p) = false
starts_with (x ∷ s) (c ∷ p) = nat_beq x c && starts_with s p

abbrev pub drop {ℓ} : {A : Type ℓ} → ℕ → List A → List A
drop zero xs = xs
drop (suc n) [] = []
drop (suc n) (x ∷ xs) = drop n xs

abbrev pub is_growth_board : List ℕ → Bool
is_growth_board s =
    starts_with s (codes "300")
    || (starts_with s (codes "301") || (starts_with s (codes "688") || starts_with s (codes "689")))

module _ ⦃d : Decimals⦄ where
  unfoldable pub is_ashare_equity : Instrument → Bool
  is_ashare_equity inst =
      is_equity (asset_class inst) && ((id_of inst).venue == "SSE" || (id_of inst).venue == "SZSE")

  unfoldable pub day_key_for_inst : Instrument → UnixNanos → ℕ
  unfolding is_ashare_equity day_key_utc day_key_shanghai
  day_key_for_inst inst now =
      if is_ashare_equity inst then day_key_shanghai now else day_key_utc now

  unfoldable pub price_limit_pct : String → d.Decimal
  price_limit_pct symbol =
      let s = map upper (codes symbol) in
      let digits = keep is_digit s in
      if starts_with s (codes "*ST") || starts_with s (codes "ST")
      then d.with_scale (pos 5) 2
      else if leb 6 (length digits) && is_growth_board (drop (length digits - 6) digits)
      then d.with_scale (pos 20) 2
      else d.with_scale (pos 10) 2

  abbrev day_of : Option Instrument → UnixNanos → ℕ
  day_of none now = day_key_shanghai now
  day_of (some inst) now = day_key_for_inst inst now

  abbrev pub record_close : Option Price → InstrumentId → ℕ → ExecutionEngine → ExecutionEngine
  record_close none id day e = e
  record_close (some px) id day e = record e {
    close_by_day = insert (id, day) (Price.as_decimal px) e.close_by_day;
  }

  unfoldable pub observe_mark : InstrumentId → UnixNanos → ExecutionEngine → ExecutionEngine
  observe_mark id now e =
      record_close (Cache.mark e.cache id) id (day_of (Cache.instrument e.cache id) now) e

  -- A stored close that is above zero.
  abbrev pub usable : Option d.Decimal → Option d.Decimal
  usable none = none
  usable (some px) = if lt d.zero px then some px else none

  abbrev or_next : Option d.Decimal → Option d.Decimal → Option d.Decimal
  or_next none b = b
  or_next (some a) b = some a

  -- `n` tries, the first at `back` days before `day`.
  unfoldable pub walk_back :
      ℕ → ℕ → InstrumentId → ℕ → List ((InstrumentId × ℕ) × d.Decimal) → Option d.Decimal
  walk_back zero back id day closes = none
  walk_back (suc n) back id day closes =
      let rest = walk_back n (suc back) id day closes in
      if ltb day back then none else or_next (usable (get (id, day - back) closes)) rest

  unfoldable pub prev_close_for : InstrumentId → ℕ → ExecutionEngine → Option d.Decimal
  unfolding walk_back
  prev_close_for id day e = walk_back 40 1 id day e.close_by_day

  unfoldable pub band_up : d.Decimal → d.Decimal → d.Decimal
  band_up prev pct = d.round_dp (d.mul prev (d.add d.one pct)) 2

  unfoldable pub band_down : d.Decimal → d.Decimal → d.Decimal
  band_down prev pct = d.round_dp (d.mul prev (d.sub d.one pct)) 2

  abbrev decimal_of : Option Price → Option d.Decimal
  decimal_of none = none
  decimal_of (some p) = some (Price.as_decimal p)

  unfoldable pub limit_reference : Cache → Order → Option d.Decimal
  limit_reference c o = elim o.order_type [
    | OrderType.limit ↦ decimal_of o.price
    | OrderType.stop_limit ↦ decimal_of o.price
    | _ ↦ decimal_of (Cache.mark c o.instrument_id)
  ]

  abbrev pub in_band : OrderSide → d.Decimal → d.Decimal → d.Decimal → Bool
  in_band buy px up down = le px up
  in_band sell px up down = le down px

  unfoldable pub limit_text : d.Decimal → d.Decimal → d.Decimal → d.Decimal → d.Decimal → String
  limit_text px down up prev pct =
      to_text DenyReason.price_limit
      ++ (": px "
          ++ (d.to_text px
              ++ (" outside ["
                  ++ (d.to_text down
                      ++ (", "
                          ++ (d.to_text up
                              ++ ("] (prev_close="
                                  ++ (d.to_text prev ++ (", pct=" ++ (d.to_text pct ++ ")"))))))))))

  abbrev violation_at : OrderSide → d.Decimal → d.Decimal → Option d.Decimal → Option String
  violation_at side prev pct none = none
  violation_at side prev pct (some px) =
      if in_band side px (band_up prev pct) (band_down prev pct)
      then none
      else some (limit_text px (band_down prev pct) (band_up prev pct) prev pct)

  abbrev violation_from : Order → Option d.Decimal → Option d.Decimal → Option String
  violation_from o none px = none
  violation_from o (some prev) px =
      if le prev d.zero
      then none
      else violation_at o.side prev (price_limit_pct o.instrument_id.symbol) px

  -- The engine, which observed the mark, and the reason to deny.
  unfoldable pub price_limit_violation :
      Instrument → Order → UnixNanos → ExecutionEngine → ExecutionEngine × Option String
  unfolding price_limit_pct band_up band_down limit_text limit_reference observe_mark prev_close_for
  price_limit_violation inst o now e =
      let seen = observe_mark o.instrument_id now e in
      let prev = prev_close_for o.instrument_id (day_key_for_inst inst now) seen in
      if is_ashare_equity inst
      then (seen, violation_from o prev (limit_reference seen.cache o))
      else (e, none)

  abbrev long_qty : Option Position → d.Decimal
  long_qty none = d.zero
  long_qty (some p) = if is_long p.side then Quantity.as_decimal p.quantity else d.zero

  abbrev pub or_zero : Option d.Decimal → d.Decimal
  or_zero none = d.zero
  or_zero (some a) = a

  unfoldable pub bought_on : InstrumentId → ℕ → ExecutionEngine → d.Decimal
  bought_on id day e = or_zero (get (id, day) e.bought_today)

  unfoldable pub sellable_qty :
      Portfolio → InstrumentId → UnixNanos → Instrument → ExecutionEngine → d.Decimal
  unfolding bought_on day_key_for_inst
  sellable_qty portfolio id now inst e =
      max
        (d.sub (long_qty (portfolio.position e.cache id))
          (bought_on id (day_key_for_inst inst now) e))
        d.zero

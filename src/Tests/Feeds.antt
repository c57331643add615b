-- ===== src/Tests/Feeds.antt =====
-- The theorems on session days and on the depth stream at concrete inputs.
use coinext.Prelude.{
  ℕ, ◌+◌, ◌*◌, ◌%◌, ◌/◌, ◌≡◌, refl, ◌≤◌, ◌<◌, true, none, some, List, [], ◌∷◌, arith, ◌↔◌, any,
}
use coinext.Prelude.Int.{pos}
use coinext.Prelude.Maps.{get, string_eq}
use coinext.Core.Time.{UnixNanos}
use coinext.Model.Ids.{instrument_id_eq}
use coinext.Cache
use coinext.Cache.{Cache}
use coinext.Exec.{ExecutionEngine}
use coinext.Exec.Session.{day_key_utc, day_key_shanghai, prev_close_for}
use coinext.Exec.Session.Days.{day_key_shanghai_utc}
use coinext.DepthBook
use coinext.DepthBook.{DepthUpdate, LocalOrderBook, applied, skipped, resync}
use coinext.DepthBook.Contiguous as Contiguous
use coinext.Tests.Sample.{sample_decimals, btc_usdt}

-- Two closes: none on day 9, 100.00 on day 8.
abbrev closing : ExecutionEngine
closing = record {
  cache = Cache.new;
  seen_trade_ids = [];
  bought_today = [];
  close_by_day = ((btc_usdt, 8), (pos 10000, 2)) ∷ [];
}

closes : prev_close_for btc_usdt 10 closing ≡ some (pos 10000, 2)
unfolding prev_close_for get
closes = refl

-- 20:00 UTC of the first day, which is the next day in Shanghai.
abbrev evening : UnixNanos
evening = 72000 * 1000000000

day_key_shanghai_utc_example :
    (day_key_shanghai evening ≡ day_key_utc (evening + 8 * 3600 * 1000000000))
    × ((day_key_shanghai evening ≡ day_key_utc evening) ↔ (evening / 1000000000 % 86400 < 57600))
day_key_shanghai_utc_example = day_key_shanghai_utc evening (omega arith)

abbrev update : ℕ → ℕ → DepthUpdate
update first last = record { first_update_id = first; last_update_id = last; prev_update_id = none }

update-Honest : (first last : ℕ) → first ≤ last → Contiguous.Honest (update first last)
update-Honest first last h = (h, λ p e. absurd (ground arith))

abbrev synced_book : LocalOrderBook
synced_book = record { last_update_id = 10; synced = true }

abbrev updates : List DepthUpdate
updates = update 11 15 ∷ update 16 20 ∷ []

runs : 17 ≤ (Contiguous.run updates synced_book).last_update_id
unfolding Contiguous.run DepthBook.apply_diff
runs = omega arith

run-covers_example : any (Contiguous.covers 17) (Contiguous.taken updates synced_book) ≡ true
run-covers_example =
    Contiguous.run-covers updates synced_book 17
      (update-Honest 11 15 (omega arith), (update-Honest 16 20 (omega arith), tt)) (omega arith)
      runs

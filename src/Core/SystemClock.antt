-- ===== src/Core/SystemClock.antt =====
-- foundation/crates/coinext-core/src/clock.rs: `SystemClock`, the wall clock. The time that the system
-- gives at its n-th reading is a parameter, `wall n`.
use coinext.Prelude.{ℕ, ◌+◌, ◌%◌, ◌^◌, Option, none, some, List, [], ◌∷◌}
use coinext.Core.Clock.{push}
use coinext.Core.Time.{UnixNanos}

-- The heap is the list of its pairs in ascending order, as in `HistoricalClock`.
pub record SystemClock : Type 0 where
  pub heap : List (UnixNanos × ℕ)
  pub next_id : ℕ
  pub readings : ℕ

unfoldable pub new : SystemClock
new = record { heap = []; next_id = 1; readings = 0 }

unfoldable pub now_ns : (ℕ → UnixNanos) → SystemClock → SystemClock × UnixNanos
now_ns wall c = (record c { readings = c.readings + 1 }, wall c.readings)

unfoldable pub set_timer : SystemClock → UnixNanos → SystemClock × ℕ
unfolding push
set_timer c at =
    (record c { next_id = (c.next_id + 1) % 2 ^ 64; heap = push (at, c.next_id) c.heap }, c.next_id)

unfoldable pub cancel_timer : SystemClock → ℕ → SystemClock
cancel_timer c id = c

abbrev first_of : List (UnixNanos × ℕ) → Option UnixNanos
first_of [] = none
first_of (e ∷ h) = some e.0

unfoldable pub peek_next_timer : SystemClock → Option UnixNanos
peek_next_timer c = first_of c.heap

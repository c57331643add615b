-- ===== src/Core/Clock.antt =====
-- foundation/crates/coinext-core/src/clock.rs: `HistoricalClock`, the backtest's time and timers.
-- The binary heap of reversed pairs is the list of its pairs in ascending order.
pub mod Due
pub mod Calls
pub mod Peek
use coinext.Prelude.{
  ℕ, ◌+◌, ◌%◌, ◌^◌, Bool, not, ◌&&◌, ◌||◌, Option, none, some, List, [], ◌∷◌, String, ltb, nat_beq,
  if◌then◌else◌, keep,
}
use coinext.Prelude.Maps.{nat_eq, get, insert, remove, contains, set_insert, set_remove}
use coinext.Core.Time.{UnixNanos}

pub record TimerEvent : Type 0 where
  pub id : ℕ
  pub name : String
  pub ts_event : UnixNanos

pub record HistoricalClock : Type 0 where
  pub now : UnixNanos
  pub heap : List (UnixNanos × ℕ)
  pub cancelled : List ℕ
  pub names : List (ℕ × String)
  pub next_id : ℕ

unfoldable pub new : UnixNanos → HistoricalClock
new start = record { now = start; heap = []; cancelled = []; names = []; next_id = 1 }

unfoldable pub advance_to : HistoricalClock → UnixNanos → HistoricalClock
advance_to c ts = if ltb c.now ts then record c { now = ts } else c

-- The order of the pairs in the heap.
abbrev pub entry_lt : UnixNanos × ℕ → UnixNanos × ℕ → Bool
entry_lt (s, i) (t, j) = ltb s t || (nat_beq s t && ltb i j)

unfoldable pub push : UnixNanos × ℕ → List (UnixNanos × ℕ) → List (UnixNanos × ℕ)
push e [] = e ∷ []
push e (f ∷ h) = if entry_lt e f then e ∷ f ∷ h else f ∷ push e h

unfoldable pub set_timer : HistoricalClock → String → UnixNanos → HistoricalClock × ℕ
unfolding push
set_timer c name at =
    let id = c.next_id in
    (
      record c {
        next_id = (id + 1) % 2 ^ 64;
        heap = push (at, id) c.heap;
        names = insert id name c.names;
      },
      id,
    )

unfoldable pub cancel_timer : HistoricalClock → ℕ → HistoricalClock
unfolding set_insert contains
cancel_timer c id = record c { cancelled = (set_insert id c.cancelled).1 }

pub record Popped : Type 0 where
  pub out : List TimerEvent
  pub heap : List (UnixNanos × ℕ)
  pub cancelled : List ℕ
  pub names : List (ℕ × String)

-- `unwrap_or_default`
abbrev pub name_of : Option String → String
name_of none = ""
name_of (some s) = s

-- The `while let` loop of `pop_due`; `HashSet::remove` tells whether the id was in the set.
unfoldable pub pop_loop : UnixNanos → List (UnixNanos × ℕ) → List ℕ → List (ℕ × String) → Popped
unfolding contains set_remove remove get
pop_loop frontier [] cancelled names = record {
  out = [];
  heap = [];
  cancelled = cancelled;
  names = names;
}
pop_loop frontier ((ts, id) ∷ heap) cancelled names =
    let rest = pop_loop frontier heap (set_remove id cancelled) (remove id names) in
    if ltb frontier ts
    then record { out = []; heap = (ts, id) ∷ heap; cancelled = cancelled; names = names }
    else if contains id cancelled
    then rest
    else record rest {
      out = record { id = id; name = name_of (get id names); ts_event = ts } ∷ rest.out;
    }

unfoldable pub pop_due : HistoricalClock → UnixNanos → HistoricalClock × List TimerEvent
unfolding pop_loop
pop_due c frontier =
    let p = pop_loop frontier c.heap c.cancelled c.names in
    (record c { heap = p.heap; cancelled = p.cancelled; names = p.names }, p.out)

-- `Iterator::min` over the times.
unfoldable pub min_time : List (UnixNanos × ℕ) → Option UnixNanos
min_time [] = none
min_time ((ts, id) ∷ h) = elim (min_time h) [
  | none ↦ some ts
  | some t ↦ some (if ltb t ts then t else ts)
]

unfoldable pub peek_next_timer : HistoricalClock → Option UnixNanos
unfolding min_time contains keep
peek_next_timer c = min_time (keep (λ e. not (contains e.1 c.cancelled)) c.heap)

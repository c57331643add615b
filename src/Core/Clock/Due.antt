-- ===== src/Core/Clock/Due.antt =====
-- foundation/crates/coinext-core/src/clock.rs: which timers `pop_due` fires.

use coinext.Prelude.{
  ℕ, ◌≤◌, ◌<◌, ◌≡◌, refl, ◌≢◌, Bool, true, false, not, ◌&&◌, List, [], ◌∷◌, map, String, arith, ltb,
  leb, All, keep, keep_none, keep_all, Bool-cases, inl, inr,
}
use coinext.Prelude.Maps.{
  nat_eq, get, remove, contains, set_remove, get-remove, contains-set_remove,
}
use coinext.Core.Time.{UnixNanos}
use coinext.Core.Clock.{HistoricalClock, TimerEvent, name_of, pop_loop, pop_due}

abbrev pub Entry : Type 0
Entry = UnixNanos × ℕ

abbrev pub IsSorted : List Entry → Type 0
IsSorted [] = Unit
IsSorted (e ∷ h) = All (λ f. e.0 ≤ f.0) h × IsSorted h

abbrev pub Distinct : List Entry → Type 0
Distinct [] = Unit
Distinct (e ∷ h) = All (λ f. e.1 ≢ f.1) h × Distinct h

pub record IsValid (c : HistoricalClock) : Type 0 where
  pub sorted : IsSorted c.heap
  pub distinct : Distinct c.heap
  pub below : All (λ e. e.1 < c.next_id) c.heap

-- What a timer fires, and which timers fire.
abbrev pub event_of : List (ℕ × String) → Entry → TimerEvent
event_of names e = record { id = e.1; name = name_of (get e.1 names); ts_event = e.0 }

abbrev pub is_due : UnixNanos → List ℕ → Entry → Bool
is_due frontier cancelled e = leb e.0 frontier && not (contains e.1 cancelled)

abbrev pub fires : UnixNanos → List ℕ → List (ℕ × String) → List Entry → List TimerEvent
fires frontier cancelled names h = map (event_of names) (keep (is_due frontier cancelled) h)

abbrev pub is_later : UnixNanos → Entry → Bool
is_later frontier e = ltb frontier e.0

-- Forgetting one timer changes nothing for the others.
fires_forget :
    (frontier : UnixNanos) (id : ℕ) (cancelled : List ℕ) (names : List (ℕ × String))
    (h : List Entry)
    → All (λ f. id ≢ f.1) h
    → fires frontier (set_remove id cancelled) (remove id names) h
      ≡ fires frontier cancelled names h
unfolding keep
fires_forget frontier id cancelled names [] d = refl
fires_forget frontier id cancelled names ((ts, j) ∷ h) (n, d) = ground (
  arith,
  fires_forget frontier id cancelled names h d,
  get-remove id j names,
  contains-set_remove id j cancelled,
)

not_due :
    (frontier : UnixNanos) (cancelled : List ℕ) (ts : UnixNanos) (h : List Entry)
    → frontier < ts
    → All (λ f. ts ≤ f.0) h
    → All (λ e. is_due frontier cancelled e ≡ false) h × All (λ e. is_later frontier e ≡ true) h
not_due frontier cancelled ts [] l a = (tt, tt)
not_due frontier cancelled ts (e ∷ h) l a = ground (arith, not_due frontier cancelled ts h l a.1)

pop_loop_lem :
    (frontier : UnixNanos) (h : List Entry) (cancelled : List ℕ) (names : List (ℕ × String))
    → IsSorted h
    → Distinct h
    → ((pop_loop frontier h cancelled names).out ≡ fires frontier cancelled names h)
      × ((pop_loop frontier h cancelled names).heap ≡ keep (is_later frontier) h)
unfolding pop_loop keep
pop_loop_lem frontier [] cancelled names s d = (refl, refl)
pop_loop_lem frontier ((ts, id) ∷ h) cancelled names s d = elim (Bool-cases (ltb frontier ts)) [
  | inl later ↦
      let (none_due, all_later) = not_due frontier cancelled ts h (ground arith) s.0 in
      ground (
        arith,
        keep_none (is_due frontier cancelled) h none_due,
        keep_all (is_later frontier) h all_later,
      )
  | inr due ↦ ground (
    arith,
    pop_loop_lem frontier h (set_remove id cancelled) (remove id names) s.1 d.1,
    fires_forget frontier id cancelled names h d.0,
  )
]

-- `pop_due` fires exactly the timers that are due and not cancelled, each once, in the order of
-- their times and with the names they were set with; the timers that stay are those after the
-- frontier.
pub pop_due_lem :
    (c : HistoricalClock) (frontier : UnixNanos)
    → IsValid c
    → ((pop_due c frontier).1 ≡ fires frontier c.cancelled c.names c.heap)
      × ((pop_due c frontier).0.heap ≡ keep (is_later frontier) c.heap)
unfolding pop_due
pop_due_lem c frontier v = pop_loop_lem frontier c.heap c.cancelled c.names v.sorted v.distinct

-- ===== src/Core/Clock/Calls/Waits.antt =====
-- foundation/crates/coinext-core/src/clock.rs: a timer through the calls between its setting and its time.
use mathlib.Core.List.{Memᴰ}
use coinext.Prelude.{
  ℕ, ◌+◌, ◌^◌, ◌≤◌, ◌<◌, ◌≡◌, ◌∙◌, sym, subst, ap, length, ◌≢◌, Bool, true, false, some, List, [],
  ◌∷◌, String, arith, ltb, All, keep, Bool-cases, inl, inr,
}
use coinext.Prelude.Maps.{
  nat_eq, get, contains, set_remove, remove, get-insert_self, get-insert, get-remove,
  contains-set_insert, contains-set_remove,
}
use coinext.Core.Time.{UnixNanos}
use coinext.Core.Clock.{
  HistoricalClock, name_of, push, entry_lt, set_timer, cancel_timer, advance_to, pop_loop, pop_due,
}
use coinext.Core.Clock.Due.{Entry, Distinct, IsValid, event_of, is_later, pop_due_lem}
use coinext.Core.Clock.Calls.{
  Call, sets, cancels, advances, pops, step, step-IsValid, step-next_id, run, Memᴰ-push, Memᴰ-fires,
}

-- The timer is in the heap, not cancelled, and under its name.
pub record Waits (id : ℕ) (name : String) (at : UnixNanos) (c : HistoricalClock) : Type 0 where
  pub entry : Memᴰ (at, id) c.heap
  pub live : contains id c.cancelled ≡ false
  pub named : get id c.names ≡ some name
  pub handed_out : id < c.next_id

-- A call that neither cancels the timer nor reaches its time.
unfoldable pub Spares : ℕ → UnixNanos → Call → Type 0
Spares id at (sets name ts) = Unit
Spares id at (cancels j) = j ≢ id
Spares id at (advances ts) = Unit
Spares id at (pops frontier) = frontier < at

Memᴰ-pushed : (e f : Entry) (h : List Entry) → Memᴰ e h → Memᴰ e (push f h)
unfolding push
Memᴰ-pushed e f [] m = elim m [ ]
Memᴰ-pushed e f (g ∷ h) (Memᴰ.head q) = elim (Bool-cases (entry_lt f g)) [
  | inl first ↦ rw first (Memᴰ.tail (Memᴰ.head q))
  | inr later ↦ rw later (Memᴰ.head q)
]
Memᴰ-pushed e f (g ∷ h) (Memᴰ.tail m) = elim (Bool-cases (entry_lt f g)) [
  | inl first ↦ rw first (Memᴰ.tail (Memᴰ.tail m))
  | inr later ↦ rw later (Memᴰ.tail (Memᴰ-pushed e f h m))
]

Memᴰ-keep :
    (p : Entry → Bool) (e : Entry) (h : List Entry) → p e ≡ true → Memᴰ e h → Memᴰ e (keep p h)
unfolding keep
Memᴰ-keep p e [] t m = elim m [ ]
Memᴰ-keep p e (f ∷ h) t (Memᴰ.head q) = rw (subst (λ g. p g ≡ true) q t) (Memᴰ.head q)
Memᴰ-keep p e (f ∷ h) t (Memᴰ.tail m) = elim (Bool-cases (p f)) [
  | inl hit ↦ rw hit (Memᴰ.tail (Memᴰ-keep p e h t m))
  | inr miss ↦ rw miss (Memᴰ-keep p e h t m)
]

at_member : (P : Entry → Type 0) (e : Entry) (h : List Entry) → Memᴰ e h → All P h → P e
at_member P e [] m a = elim m [ ]
at_member P e (f ∷ h) (Memᴰ.head q) a = subst P (sym q) a.0
at_member P e (f ∷ h) (Memᴰ.tail m) a = at_member P e h m a.1

-- A loop that ends before a timer leaves its name and its cancellation.
pop_loop-keeps :
    (frontier : UnixNanos) (h : List Entry) (cancelled : List ℕ) (names : List (ℕ × String))
    (at : UnixNanos) (id : ℕ)
    → Distinct h
    → Memᴰ (at, id) h
    → frontier < at
    → (contains id (pop_loop frontier h cancelled names).cancelled ≡ contains id cancelled)
      × (get id (pop_loop frontier h cancelled names).names ≡ get id names)
unfolding pop_loop
pop_loop-keeps frontier [] cancelled names at id d m l = elim m [ ]
pop_loop-keeps frontier ((ts, j) ∷ h) cancelled names at id d (Memᴰ.head q) l =
    let same : at ≡ ts = ap (λ e. e.0) q in ground (arith, same, l)
pop_loop-keeps frontier ((ts, j) ∷ h) cancelled names at id d (Memᴰ.tail m) l = ground (
  arith,
  at_member (λ e. j ≢ e.1) (at, id) h m d.0,
  pop_loop-keeps frontier h (set_remove j cancelled) (remove j names) at id d.1 m l,
  get-remove j id names,
  contains-set_remove j id cancelled,
)

step-Waits :
    (id : ℕ) (name : String) (at : UnixNanos) (c : HistoricalClock) (call : Call)
    → c.next_id + 1 < 2 ^ 64
    → IsValid c
    → Spares id at call
    → Waits id name at c
    → Waits id name at (step c call)
unfolding step Spares set_timer cancel_timer advance_to pop_due
step-Waits id name at c (sets other ts) small v sp w = record {
  entry = Memᴰ-pushed (at, id) (ts, c.next_id) c.heap w.entry;
  live = w.live;
  named = ground (arith, w.handed_out, get-insert c.next_id id other c.names, w.named);
  handed_out = omega (arith, w.handed_out, small);
}
step-Waits id name at c (cancels j) small v sp w = record {
  entry = w.entry;
  live = ground (arith, sp, contains-set_insert j id c.cancelled, w.live);
  named = w.named;
  handed_out = w.handed_out;
}
step-Waits id name at c (advances ts) small v sp w = elim (Bool-cases (ltb c.now ts)) [
  | inl newer ↦
      rw (newer, advance_to)
        (record { entry = w.entry; live = w.live; named = w.named; handed_out = w.handed_out })
  | inr older ↦ rw (older, advance_to) w
]
step-Waits id name at c (pops frontier) small v sp w =
    let kept = pop_loop-keeps frontier c.heap c.cancelled c.names at id v.distinct w.entry sp in
    record {
      entry =
          subst (Memᴰ (at, id)) (sym (pop_due_lem c frontier v).1)
            (Memᴰ-keep (is_later frontier) (at, id) c.heap (ground arith) w.entry);
      live = kept.0 ∙ w.live;
      named = kept.1 ∙ w.named;
      handed_out = w.handed_out;
    }

run-Waits :
    (id : ℕ) (name : String) (at : UnixNanos) (c : HistoricalClock) (calls : List Call)
    → c.next_id + length calls < 2 ^ 64
    → IsValid c
    → All (Spares id at) calls
    → Waits id name at c
    → IsValid (run c calls) × Waits id name at (run c calls)
unfolding run
run-Waits id name at c [] small v sp w = (v, w)
run-Waits id name at c (call ∷ calls) small v sp w =
    run-Waits id name at (step c call) calls (omega (arith, step-next_id c call))
      (step-IsValid c call (omega arith) v) sp.1
      (step-Waits id name at c call (omega arith) v sp.0 w)

set_timer-Waits :
    (c : HistoricalClock) (name : String) (at : UnixNanos)
    → c.next_id + 1 < 2 ^ 64
    → contains c.next_id c.cancelled ≡ false
    → Waits c.next_id name at (set_timer c name at).0
unfolding set_timer
set_timer-Waits c name at small live = record {
  entry = Memᴰ-push (at, c.next_id) c.heap;
  live = live;
  named = get-insert_self c.next_id name c.names;
  handed_out = omega (arith, small);
}

-- A timer is set in a valid clock, with an id that was not cancelled in advance. Whatever calls follow that
-- do not cancel it and pop only frontiers before its time, as long as the u64 ids do not run out, the next
-- pop of a frontier that reaches its time fires it, with its id, its name and its time.
pub pop_due-run :
    (c : HistoricalClock) (name : String) (at frontier : UnixNanos) (calls : List Call)
    → c.next_id + 1 + length calls < 2 ^ 64
    → IsValid c
    → contains c.next_id c.cancelled ≡ false
    → All (Spares c.next_id at) calls
    → at ≤ frontier
    → Memᴰ
        (record { id = c.next_id; name = name; ts_event = at })
        (pop_due (run (set_timer c name at).0 calls) frontier).1
unfolding step
pop_due-run c name at frontier calls small v live sp due =
    let c1 = (set_timer c name at).0 in
    let next = step-next_id c (sets name at) (omega arith) in
    let (v2, w) =
      run-Waits c.next_id name at c1 calls (omega (arith, next))
        (step-IsValid c (sets name at) (omega arith) v) sp
        (set_timer-Waits c name at (omega arith) live) in
    let c2 = run c1 calls in
    let named : event_of c2.names (at, c.next_id)
        ≡ record { id = c.next_id; name = name; ts_event = at } =
      ap (λ o. record { id = c.next_id; name = name_of o; ts_event = at }) w.named in
    subst (λ ev. Memᴰ ev (pop_due c2 frontier).1) named
      (subst (Memᴰ (event_of c2.names (at, c.next_id))) (sym (pop_due_lem c2 frontier v2).0) (
        Memᴰ-fires frontier c2.cancelled c2.names (at, c.next_id) c2.heap w.entry
          (ground (arith, w.live))))

-- ===== src/Core/Clock/Calls.antt =====
-- foundation/crates/coinext-core/src/clock.rs: sequences of calls of a `HistoricalClock`.
pub mod Waits
use mathlib.Core.List.{Memᴰ}
use coinext.Prelude.{
  ℕ, ◌+◌, ◌%◌, ◌^◌, ◌≤◌, ◌<◌, ◌≡◌, refl, sym, subst, ap, length, ◌≢◌, Bool, true, false, List, [],
  ◌∷◌, String, arith, ltb, All, keep, All-keep, All-mono, Bool-cases, inl, inr,
}
use coinext.Prelude.Maps.{nat_eq, contains, get-insert_self}
use coinext.Core.Time.{UnixNanos}
use coinext.Core.Clock.{
  HistoricalClock, name_of, new, push, entry_lt, set_timer, cancel_timer, advance_to, pop_due,
}
use coinext.Core.Clock.Due.{
  Entry, IsSorted, Distinct, IsValid, event_of, is_due, fires, is_later, pop_due_lem,
}

All-push {κ} : (P : Entry → Type κ) (e : Entry) (h : List Entry) → P e → All P h → All P (push e h)
unfolding push
All-push P e [] p a = (p, tt)
All-push P e (f ∷ h) p a = ground (arith, All-push P e h p a.1)

push-IsSorted : (e : Entry) (h : List Entry) → IsSorted h → IsSorted (push e h)
unfolding push
push-IsSorted e [] s = (tt, tt)
push-IsSorted e (f ∷ h) s = elim (Bool-cases (entry_lt e f)) [
  | inl first ↦
      let le : e.0 ≤ f.0 = ground arith in
      rw first ((le, All-mono (λ g (q : f.0 ≤ g.0). omega arith) h s.0), s)
  | inr later ↦
      let le : f.0 ≤ e.0 = ground arith in
      rw later (All-push (λ g. f.0 ≤ g.0) e h le s.0, push-IsSorted e h s.1)
]

push-Distinct :
    (e : Entry) (h : List Entry) → All (λ f. e.1 ≢ f.1) h → Distinct h → Distinct (push e h)
unfolding push
push-Distinct e [] n d = (tt, tt)
push-Distinct e (f ∷ h) n d = elim (Bool-cases (entry_lt e f)) [
  | inl first ↦ rw first (n, d)
  | inr later ↦
      rw later (All-push (λ g. f.1 ≢ g.1) e h (λ q. n.0 (sym q)) d.0, push-Distinct e h n.1 d.1)
]

keep-IsSorted : (p : Entry → Bool) (h : List Entry) → IsSorted h → IsSorted (keep p h)
unfolding keep
keep-IsSorted p [] s = tt
keep-IsSorted p (e ∷ h) s = ground (arith, keep-IsSorted p h s.1, All-keep (λ f. e.0 ≤ f.0) p h s.0)

keep-Distinct : (p : Entry → Bool) (h : List Entry) → Distinct h → Distinct (keep p h)
unfolding keep
keep-Distinct p [] s = tt
keep-Distinct p (e ∷ h) s = ground (arith, keep-Distinct p h s.1, All-keep (λ f. e.1 ≢ f.1) p h s.0)

pub data Call : Type 0 where
  sets : String → UnixNanos → Call
  cancels : ℕ → Call
  advances pops : UnixNanos → Call

pub step : HistoricalClock → Call → HistoricalClock
step c (sets name at) = (set_timer c name at).0
step c (cancels id) = cancel_timer c id
step c (advances ts) = advance_to c ts
step c (pops frontier) = (pop_due c frontier).0

-- Every call keeps the heap in order, its timer ids distinct and below the next id, as long as the
-- u64 of ids does not wrap.
pub step-IsValid :
    (c : HistoricalClock) (call : Call) → c.next_id + 1 < 2 ^ 64 → IsValid c → IsValid (step c call)
unfolding step set_timer cancel_timer advance_to pop_due
step-IsValid c (sets name at) small v = record {
  sorted = push-IsSorted (at, c.next_id) c.heap v.sorted;
  distinct =
      push-Distinct (at, c.next_id) c.heap
        (All-mono (λ e (q : e.1 < c.next_id). omega arith) c.heap v.below) v.distinct;
  below =
      All-push (λ e. e.1 < (c.next_id + 1) % 2 ^ 64) (at, c.next_id) c.heap (omega arith)
        (All-mono (λ e (q : e.1 < c.next_id). omega arith) c.heap v.below);
}
step-IsValid c (cancels id) small v = record {
  sorted = v.sorted;
  distinct = v.distinct;
  below = v.below;
}
step-IsValid c (advances ts) small v = elim (Bool-cases (ltb c.now ts)) [
  | inl newer ↦
      rw (newer, advance_to) (record { sorted = v.sorted; distinct = v.distinct; below = v.below })
  | inr older ↦ rw (older, advance_to) v
]
step-IsValid c (pops frontier) small v =
    let left = sym (pop_due_lem c frontier v).1 in
    record {
      sorted = subst IsSorted left (keep-IsSorted (is_later frontier) c.heap v.sorted);
      distinct = subst Distinct left (keep-Distinct (is_later frontier) c.heap v.distinct);
      below =
          subst (All (λ e. e.1 < c.next_id)) left
            (All-keep (λ e. e.1 < c.next_id) (is_later frontier) c.heap v.below);
    }

pub step-next_id :
    (c : HistoricalClock) (call : Call)
    → c.next_id + 1 < 2 ^ 64
    → (step c call).next_id ≤ c.next_id + 1
unfolding step set_timer cancel_timer advance_to pop_due
step-next_id c (sets name at) small = omega arith
step-next_id c (cancels id) small = omega arith
step-next_id c (advances ts) small = ground arith
step-next_id c (pops frontier) small = omega arith

pub run : HistoricalClock → List Call → HistoricalClock
run c [] = c
run c (call ∷ calls) = run (step c call) calls

run-IsValid :
    (c : HistoricalClock) (calls : List Call)
    → c.next_id + length calls < 2 ^ 64
    → IsValid c
    → IsValid (run c calls)
unfolding run
run-IsValid c [] small v = v
run-IsValid c (call ∷ calls) small v =
    run-IsValid (step c call) calls (omega (arith, step-next_id c call))
      (step-IsValid c call (omega arith) v)

-- After any calls that are fewer than the u64 ids, the timers of a new clock are in order and have
-- distinct ids that were all handed out.
pub run-new-IsValid :
    (start : UnixNanos) (calls : List Call)
    → length calls + 1 < 2 ^ 64
    → IsValid (run (new start) calls)
unfolding new
run-new-IsValid start calls small =
    run-IsValid (new start) calls (unfold new in omega arith)
      (record { sorted = tt; distinct = tt; below = tt })

Memᴰ-push : (e : Entry) (h : List Entry) → Memᴰ e (push e h)
unfolding push
Memᴰ-push e [] = Memᴰ.head refl
Memᴰ-push e (f ∷ h) = elim (Bool-cases (entry_lt e f)) [
  | inl first ↦ rw first (Memᴰ.head refl)
  | inr later ↦ rw later (Memᴰ.tail (Memᴰ-push e h))
]

Memᴰ-fires :
    (frontier : UnixNanos) (cancelled : List ℕ) (names : List (ℕ × String)) (e : Entry)
    (h : List Entry)
    → Memᴰ e h
    → is_due frontier cancelled e ≡ true
    → Memᴰ (event_of names e) (fires frontier cancelled names h)
unfolding keep
Memᴰ-fires frontier cancelled names e [] m due = elim m [ ]
Memᴰ-fires frontier cancelled names e (f ∷ h) (Memᴰ.head q) due =
    rw (subst (λ g. is_due frontier cancelled g ≡ true) q due) (Memᴰ.head (ap (event_of names) q))
Memᴰ-fires frontier cancelled names e (f ∷ h) (Memᴰ.tail m) due =
    elim (Bool-cases (is_due frontier cancelled f)) [
      | inl hit ↦ rw hit (Memᴰ.tail (Memᴰ-fires frontier cancelled names e h m due))
      | inr miss ↦ rw miss (Memᴰ-fires frontier cancelled names e h m due)
    ]

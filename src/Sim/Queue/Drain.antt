-- ===== src/Sim/Queue/Drain.antt =====
-- backtesting-simulation/crates/coinext-sim/src/lib.rs: which reports `drain_due` yields, and in which
-- order.
use coinext.Prelude.{
  ℕ, ◌+◌, ◌%◌, ◌^◌, ◌≤◌, ◌<◌, ◌≡◌, refl, Bool, true, false, List, [], ◌∷◌, map, arith, ltb, leb,
  All, All-mono, keep, keep_none, keep_all, Bool-cases, inl, inr,
}
use coinext.Core.Time.{UnixNanos}
use coinext.Ports.{ExecutionReport}
use coinext.Sim.Queue.{Scheduled, DelayedEventQueue, earlier, place, push, drain_loop, drain_due}

abbrev pub IsSorted : List Scheduled → Type 0
IsSorted [] = Unit
IsSorted (s ∷ h) = All (λ t. earlier s t ≡ true) h × IsSorted h

-- The entries are in order, and every sequence number was handed out.
pub record IsValid (q : DelayedEventQueue) : Type 0 where
  pub sorted : IsSorted q.heap
  pub numbered : All (λ s. s.seq ≤ q.seq) q.heap

abbrev pub is_due : UnixNanos → Scheduled → Bool
is_due frontier s = leb s.due frontier

abbrev pub is_later : UnixNanos → Scheduled → Bool
is_later frontier s = ltb frontier s.due

abbrev pub report_of : Scheduled → ExecutionReport
report_of s = s.report

pub All-place :
    (P : Scheduled → Type 0) (s : Scheduled) (h : List Scheduled)
    → P s
    → All P h
    → All P (place s h)
unfolding place
All-place P s [] p a = (p, tt)
All-place P s (t ∷ h) p (q, a) = elim (Bool-cases (earlier s t)) [
  | inl e ↦ rw e (p, (q, a))
  | inr e ↦ rw e (q, All-place P s h p a)
]

earlier_trans : (a b c : Scheduled) → earlier a b ≡ true → earlier b c ≡ true → earlier a c ≡ true
earlier_trans a b c h k = ground arith

earlier_other : (a b : Scheduled) → b.seq < a.seq → earlier a b ≡ false → earlier b a ≡ true
earlier_other a b h k = ground arith

place-IsSorted :
    (s : Scheduled) (h : List Scheduled)
    → All (λ t. t.seq < s.seq) h
    → IsSorted h
    → IsSorted (place s h)
unfolding place
place-IsSorted s [] n o = (tt, tt)
place-IsSorted s (t ∷ h) (m, n) (o, os) = elim (Bool-cases (earlier s t)) [
  | inl e ↦ rw e ((e, All-mono (λ u. earlier_trans s t u e) h o), (o, os))
  | inr e ↦
      rw e
        (All-place (λ u. earlier t u ≡ true) s h (earlier_other s t m e) o, place-IsSorted s h n os)
]

stays : (n : ℕ) → n + 1 < 2 ^ 64 → (n + 1) % 2 ^ 64 ≡ n + 1
stays n h = omega (arith, h)

pub push-IsValid :
    (due : UnixNanos) (r : ExecutionReport) (q : DelayedEventQueue)
    → q.seq + 1 < 2 ^ 64
    → IsValid q
    → IsValid (push due r q)
unfolding push
push-IsValid due r q b v =
    let id = stays q.seq b in
    let s : Scheduled = record { due = due; seq = q.seq + 1; report = r } in
    rw id (record {
      sorted =
          place-IsSorted s q.heap (All-mono (λ t h. omega (arith, h)) q.heap v.numbered) v.sorted;
      numbered =
          All-place (λ t. t.seq ≤ q.seq + 1) s q.heap (omega arith)
            (All-mono (λ t h. omega (arith, h)) q.heap v.numbered);
    })

still_later :
    (frontier : UnixNanos) (s t : Scheduled)
    → ltb frontier s.due ≡ true
    → earlier s t ≡ true
    → is_later frontier t ≡ true
still_later frontier s t h k = ground arith

not_yet :
    (frontier : UnixNanos) (t : Scheduled) → is_later frontier t ≡ true → is_due frontier t ≡ false
not_yet frontier t h = ground arith

drain_loop_lem :
    (frontier : UnixNanos) (h : List Scheduled)
    → IsSorted h
    → ((drain_loop frontier h).1 ≡ map report_of (keep (is_due frontier) h))
      × ((drain_loop frontier h).0 ≡ keep (is_later frontier) h)
unfolding drain_loop keep
drain_loop_lem frontier [] o = (refl, refl)
drain_loop_lem frontier (s ∷ h) (o, os) = elim (Bool-cases (ltb frontier s.due)) [
  | inr e ↦ ground (arith, e, drain_loop_lem frontier h os)
  | inl e ↦
      let later = All-mono (λ t. still_later frontier s t e) h o in
      let not_due = All-mono (λ t. not_yet frontier t) h later in
      ground (arith, e, keep_all (is_later frontier) h later, keep_none (is_due frontier) h not_due)
]

-- Draining to a frontier yields exactly the reports that are due by then, in the order of their due
-- times and, at one due time, in the order in which they were pushed; the later ones stay in order.
pub drain_due_lem :
    (q : DelayedEventQueue) (frontier : UnixNanos)
    → IsValid q
    → ((drain_due frontier q).1 ≡ map report_of (keep (is_due frontier) q.heap))
      × ((drain_due frontier q).0.heap ≡ keep (is_later frontier) q.heap)
unfolding drain_due
drain_due_lem q frontier v = drain_loop_lem frontier q.heap v.sorted

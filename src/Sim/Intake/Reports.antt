-- ===== src/Sim/Intake/Reports.antt =====
-- backtesting-simulation/crates/coinext-sim/src/lib.rs: what any sequence of submissions and
-- cancellations leaves in the venue's queue and among its resting orders.
use coinext.Prelude.{
  ℕ, ◌+◌, ◌%◌, ◌^◌, ◌≤◌, ◌<◌, ◌≡◌, refl, Bool, true, false, Option-cases, List, [], ◌∷◌, map, arith,
  All, All-append, All-keep, keep, length, Bool-cases, inl, inr,
}
use coinext.Prelude.Maps.{◌==◌, string_eq}
use coinext.Core.Decimal.{Decimals}
use coinext.Core.Time.{UnixNanos, saturating_add_ns}
use coinext.Model.Ids.{ClientOrderId, VenueOrderId}
use coinext.Model.Order.{Order}
use coinext.Cache
use coinext.Cache.{Cache}
use coinext.Ports.{ExecutionReport}
use coinext.Sim.Queue.{DelayedEventQueue, Scheduled, push, drain_due}
use coinext.Sim.Queue.Drain.{
  IsSorted, IsValid, push-IsValid, All-place, drain_due_lem, is_due, report_of,
}
use coinext.Sim.Brokerage.{CommandKind}
use coinext.Sim.Intake.{
  Resting, SimState, new, venue_id, remove_at, rests, marketable, resting_of, on_submit, on_cancel,
}

-- Reports that only answer a command.
abbrev pub is_answer : ExecutionReport → Bool
is_answer (ExecutionReport.accepted id v) = true
is_answer (ExecutionReport.canceled id) = true
is_answer _ = false

abbrev pub IsWhole : Resting → Type 0
IsWhole r = r.remaining ≡ r.order.quantity

-- After `n` commands: the queue is in order, holds only answers, and each resting order is unfilled.
pub record IsUnfilled (s : SimState) (n : ℕ) : Type 0 where
  pub valid : IsValid s.queue
  pub counted : s.queue.seq ≤ n
  pub answers : All (λ e. is_answer e.report ≡ true) s.queue.heap
  pub whole : All IsWhole s.resting

push_answers :
    (due : UnixNanos) (r : ExecutionReport) (q : DelayedEventQueue)
    → is_answer r ≡ true
    → All (λ e. is_answer e.report ≡ true) q.heap
    → All (λ e. is_answer e.report ≡ true) (push due r q).heap
unfolding push
push_answers due r q h a =
    All-place (λ e. is_answer e.report ≡ true)
      (record { due = due; seq = (q.seq + 1) % 2 ^ 64; report = r }) q.heap h a

reports_answer :
    (h : List Scheduled)
    → All (λ e. is_answer e.report ≡ true) h
    → All (λ r. is_answer r ≡ true) (map report_of h)
reports_answer [] a = tt
reports_answer (e ∷ h) (p, a) = (p, reports_answer h a)

push_counts :
    (due : UnixNanos) (r : ExecutionReport) (q : DelayedEventQueue) (n : ℕ)
    → q.seq ≤ n
    → (push due r q).seq ≤ n + 1
unfolding push
push_counts due r q n h = omega (arith, h)

remove_at-IsWhole :
    (id : ClientOrderId) (rs : List Resting) → All IsWhole rs → All IsWhole (remove_at id rs)
remove_at-IsWhole id [] a = tt
remove_at-IsWhole id (r ∷ rs) (h, a) = elim (Bool-cases (r.order.client_order_id == id)) [
  | inl e ↦ rw e a
  | inr e ↦ rw e (h, remove_at-IsWhole id rs a)
]

IsUnfilled-mono : (s : SimState) (n m : ℕ) → n ≤ m → IsUnfilled s n → IsUnfilled s m
IsUnfilled-mono s n m h u = record {
  valid = u.valid;
  counted = omega (arith, h, u.counted);
  answers = u.answers;
  whole = u.whole;
}

module _ ⦃d : Decimals⦄ where
  resting_of-IsWhole : (c : Cache) (o : Order) (id : VenueOrderId) → IsWhole (resting_of c o id)
  unfolding resting_of
  resting_of-IsWhole c o id = elim (Bool-cases (marketable c o)) [
    | inl e ↦ rw e refl
    | inr e ↦ rw e refl
  ]

  -- A command with the time at which it arrives; a submission also with the cache it is read against.
  pub data Command : Type 0 where
    submit_order : UnixNanos → Cache → Order → Command
    cancel_order : UnixNanos → ClientOrderId → Command

  module _ (latency_ns : CommandKind → ℕ) where
    abbrev pub handle : Command → SimState → SimState
    handle (submit_order now c o) s = on_submit now latency_ns c o s
    handle (cancel_order now id) s = on_cancel now latency_ns id s

    abbrev pub handle_all : List Command → SimState → SimState
    handle_all [] s = s
    handle_all (c ∷ cs) s = handle_all cs (handle c s)

    on_submit-IsUnfilled :
        (now : UnixNanos) (c : Cache) (o : Order) (s : SimState) (n : ℕ)
        → n + 1 < 2 ^ 64
        → IsUnfilled s n
        → IsUnfilled (on_submit now latency_ns c o s) (n + 1)
    unfolding on_submit
    on_submit-IsUnfilled now c o s n b u =
        elim (Option-cases (Cache.instrument c o.instrument_id)) [
          | inl e ↦ rw (e, on_submit) (IsUnfilled-mono s n (n + 1) (omega arith) u)
          | inr (inst, e) ↦
              let id = venue_id ((s.venue_seq + 1) % 2 ^ 64) in
              let at = saturating_add_ns now (latency_ns CommandKind.submit) in
              let r = ExecutionReport.accepted o.client_order_id id in
              rw (e, on_submit)
                (record {
                  valid = push-IsValid at r s.queue (omega (arith, b, u.counted)) u.valid;
                  counted = push_counts at r s.queue n u.counted;
                  answers = push_answers at r s.queue refl u.answers;
                  whole = All-append IsWhole s.resting _ u.whole (resting_of-IsWhole c o id, tt);
                })
        ]

    on_cancel-IsUnfilled :
        (now : UnixNanos) (id : ClientOrderId) (s : SimState) (n : ℕ)
        → n + 1 < 2 ^ 64
        → IsUnfilled s n
        → IsUnfilled (on_cancel now latency_ns id s) (n + 1)
    unfolding on_cancel
    on_cancel-IsUnfilled now id s n b u = elim (Bool-cases (rests id s.resting)) [
      | inr e ↦ rw e (IsUnfilled-mono s n (n + 1) (omega arith) u)
      | inl e ↦
          let at = saturating_add_ns now (latency_ns CommandKind.cancel) in
          let r = ExecutionReport.canceled id in
          rw e (record {
            valid = push-IsValid at r s.queue (omega (arith, b, u.counted)) u.valid;
            counted = push_counts at r s.queue n u.counted;
            answers = push_answers at r s.queue refl u.answers;
            whole = remove_at-IsWhole id s.resting u.whole;
          })
    ]

    handle-IsUnfilled :
        (c : Command) (s : SimState) (n : ℕ)
        → n + 1 < 2 ^ 64
        → IsUnfilled s n
        → IsUnfilled (handle c s) (n + 1)
    handle-IsUnfilled (submit_order now c o) s n b u = on_submit-IsUnfilled now c o s n b u
    handle-IsUnfilled (cancel_order now id) s n b u = on_cancel-IsUnfilled now id s n b u

    handle_all-IsUnfilled :
        (cs : List Command) (s : SimState) (n : ℕ)
        → n + length cs < 2 ^ 64
        → IsUnfilled s n
        → IsUnfilled (handle_all cs s) (n + length cs)
    handle_all-IsUnfilled [] s n b u = IsUnfilled-mono s n (n + 0) (omega arith) u
    handle_all-IsUnfilled (c ∷ cs) s n b u =
        let next = handle-IsUnfilled c s n (omega (arith, b)) u in
        let rest = handle_all-IsUnfilled cs (handle c s) (n + 1) (omega (arith, b)) next in
        IsUnfilled-mono (handle_all cs (handle c s)) (n + 1 + length cs) _ (omega arith) rest

    new-IsUnfilled : IsUnfilled new 0
    unfolding new
    new-IsUnfilled = record {
      valid = record { sorted = tt; numbered = tt };
      counted = omega arith;
      answers = tt;
      whole = tt;
    }

    -- After fewer than 2^64 submissions and cancellations in any order, and no market event, on a new
    -- venue: every resting order still has its whole quantity, and draining the queue to any frontier
    -- yields no fill, only acceptances and cancellations, and exactly those that are due, in the order
    -- of the queue, which is that of their due times and then of their scheduling.
    pub intake_fills_nothing :
        (cs : List Command) (frontier : UnixNanos)
        → length cs < 2 ^ 64
        → All IsWhole (handle_all cs new).resting
          × All (λ r. is_answer r ≡ true) (drain_due frontier (handle_all cs new).queue).1
          × ((drain_due frontier (handle_all cs new).queue).1
              ≡ map report_of (keep (is_due frontier) (handle_all cs new).queue.heap))
          × IsSorted (handle_all cs new).queue.heap
    intake_fills_nothing cs frontier b =
        let u = handle_all-IsUnfilled cs new 0 (omega (arith, b)) new-IsUnfilled in
        let out = (drain_due_lem (handle_all cs new).queue frontier u.valid).0 in
        let due = All-keep (λ e. is_answer e.report ≡ true) (is_due frontier) _ u.answers in
        (u.whole, rw out (reports_answer _ due), out, u.valid.sorted)

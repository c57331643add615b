-- ===== src/Sim/Queue.antt =====
-- backtesting-simulation/crates/coinext-sim/src/lib.rs: `DelayedEventQueue`. The binary heap of
-- reversed entries is the list of its entries in ascending order of due time and sequence number.
pub mod Drain
use coinext.Prelude.{
  ℕ, ◌+◌, ◌%◌, ◌^◌, Bool, ◌&&◌, ◌||◌, Option, none, some, List, [], ◌∷◌, ltb, nat_beq,
  if◌then◌else◌,
}
use coinext.Core.Time.{UnixNanos}
use coinext.Ports.{ExecutionReport}

pub record Scheduled : Type 0 where
  pub due : UnixNanos
  pub seq : ℕ
  pub report : ExecutionReport

pub record DelayedEventQueue : Type 0 where
  pub heap : List Scheduled
  pub seq : ℕ

-- `Scheduled` is ordered by due time, then by sequence number.
abbrev pub earlier : Scheduled → Scheduled → Bool
earlier a b = ltb a.due b.due || (nat_beq a.due b.due && ltb a.seq b.seq)

unfoldable pub place : Scheduled → List Scheduled → List Scheduled
place s [] = s ∷ []
place s (t ∷ h) = if earlier s t then s ∷ t ∷ h else t ∷ place s h

unfoldable pub push : UnixNanos → ExecutionReport → DelayedEventQueue → DelayedEventQueue
unfolding place
push due report q =
    let seq = (q.seq + 1) % 2 ^ 64 in
    record { seq = seq; heap = place (record { due = due; seq = seq; report = report }) q.heap }

abbrev first_due : List Scheduled → Option UnixNanos
first_due [] = none
first_due (s ∷ h) = some s.due

unfoldable pub peek_due : DelayedEventQueue → Option UnixNanos
peek_due q = first_due q.heap

-- The loop of `drain_due`: the entries that stay, and the reports in the order in which they leave.
unfoldable pub drain_loop : UnixNanos → List Scheduled → List Scheduled × List ExecutionReport
drain_loop frontier [] = ([], [])
drain_loop frontier (s ∷ h) =
    let rest = drain_loop frontier h in
    if ltb frontier s.due then (s ∷ h, []) else (rest.0, s.report ∷ rest.1)

unfoldable pub drain_due : UnixNanos → DelayedEventQueue → DelayedEventQueue × List ExecutionReport
unfolding drain_loop
drain_due frontier q =
    let (heap, out) = drain_loop frontier q.heap in (record q { heap = heap }, out)

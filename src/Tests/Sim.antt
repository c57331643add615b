-- ===== src/Tests/Sim.antt =====
-- The theorems on the simulated venue at concrete inputs.
use coinext.Prelude.{ℕ, ◌≡◌, refl, true, none, List, [], ◌∷◌, arith, map, All, keep}
use coinext.Model.Order
use coinext.Model.Order.{Order}
use coinext.Cache.{Cache}
use coinext.Ports.{ExecutionReport}
use coinext.Sim.Queue.{DelayedEventQueue, drain_due}
use coinext.Sim.Queue.Drain.{IsSorted, is_due, report_of}
use coinext.Sim.Brokerage.{CommandKind}
use coinext.Sim.Intake.{new}
use coinext.Sim.Intake.Reports.{
  Command, submit_order, cancel_order, is_answer, IsWhole, handle_all, intake_fills_nothing,
}
use coinext.Tests.Sample.{sample_decimals, btc_usdt, price, pair, init}

abbrev cache : Cache
cache = record {
  instruments = (btc_usdt, pair) ∷ [];
  quotes = [];
  marks = (btc_usdt, price 10000) ∷ [];
  order_books = [];
  orders = [];
  positions = [];
  account = none;
}

-- A submission answered after 50, and its cancellation answered after 20.
abbrev latency : CommandKind → ℕ
latency CommandKind.submit = 50
latency _ = 20

abbrev commands : List Command
commands = submit_order 1000 cache (Order.new "s" init) ∷ cancel_order 1010 "c-1" ∷ []

intake_fills_nothing_example :
    All IsWhole (handle_all latency commands new).resting
    × All (λ r. is_answer r ≡ true) (drain_due 1040 (handle_all latency commands new).queue).1
    × ((drain_due 1040 (handle_all latency commands new).queue).1
        ≡ map report_of (keep (is_due 1040) (handle_all latency commands new).queue.heap))
    × IsSorted (handle_all latency commands new).queue.heap
intake_fills_nothing_example = intake_fills_nothing latency commands 1040 (omega arith)

-- Two reports due at 20, in their order, and one due at 50.
abbrev waiting : DelayedEventQueue
waiting = record {
  heap =
      record { due = 20; seq = 2; report = ExecutionReport.canceled "b" }
      ∷ record { due = 20; seq = 3; report = ExecutionReport.canceled "c" }
      ∷ record { due = 50; seq = 1; report = ExecutionReport.canceled "a" }
      ∷ [];
  seq = 3;
}

drained :
    (drain_due 20 waiting).1 ≡ ExecutionReport.canceled "b" ∷ ExecutionReport.canceled "c" ∷ []
unfolding drain_due
drained = refl

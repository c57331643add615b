-- ===== src/Tests/Ports.antt =====
-- The theorems on the order factory, the bus and the data engine at concrete inputs.
use coinext.Prelude.{ℕ, ◌+◌, ◌≡◌, refl, true, some, All, List, [], ◌∷◌, arith}
use coinext.Cache
use coinext.Ports.Factory.{new}
use coinext.Ports.Factory.Distinct.{mint_ids, IsDistinct, mint_ids-IsDistinct}
use coinext.Ports.Bus.{BusMsg, CtrlMsg, Topic, Sub, InProcBus}
use coinext.Ports.Bus.Delivery.{Call, publishes, unsubscribes, Keeps, run, find, Heard, run-Heard}
use coinext.DataEngine.Marks.{last_mark, update_all, mark-update_all}
use coinext.Tests.Sample.{trade, sample_decimals, btc_usdt}

mint_ids-IsDistinct_example : IsDistinct (mint_ids 3 (new "s"))
unfolding new
mint_ids-IsDistinct_example = mint_ids-IsDistinct 3 (new "s") (omega arith)

-- Two subscriptions of the control topic, which count messages.
abbrev bus : InProcBus ℕ
bus = record {
  next_id = 2;
  subs =
      record { id = 1; topic = Topic.ctrl; handler = λ m n. n + 1; state = 0 }
      ∷ record { id = 2; topic = Topic.ctrl; handler = λ m n. n + 1; state = 5 }
      ∷ [];
}

abbrev killed : BusMsg
killed = BusMsg.ctrl (CtrlMsg.kill_switch true)

abbrev counter : Sub ℕ
counter = record { id = 2; topic = Topic.ctrl; handler = λ m n. n + 1; state = 5 }

-- A message, another subscription leaves, a message of another topic, and a message.
abbrev calls : List (Call ℕ)
calls =
    publishes Topic.ctrl killed
    ∷ unsubscribes 1
    ∷ publishes (Topic.timer "s") killed
    ∷ publishes Topic.ctrl killed
    ∷ []

calls_keep : All (Keeps ℕ 2) calls
unfolding Keeps
calls_keep = (tt, (ground arith, (tt, (tt, tt))))

run-Heard_example :
    (x : ℕ) × (find ℕ 2 (InProcBus.subs (run ℕ calls bus)) ≡ some (record counter { state = x }))
    × Heard ℕ Topic.ctrl (λ m n. n + 1) calls 5 x
run-Heard_example = run-Heard ℕ calls 2 counter bus refl calls_keep

mark-update_all_example :
    Cache.mark (update_all (trade 20 10000 ∷ trade 20 10100 ∷ []) Cache.new) btc_usdt
    ≡ last_mark btc_usdt (trade 20 10000 ∷ trade 20 10100 ∷ []) (Cache.mark Cache.new btc_usdt)
mark-update_all_example = mark-update_all btc_usdt (trade 20 10000 ∷ trade 20 10100 ∷ []) Cache.new

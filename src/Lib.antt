-- ===== src/Lib.antt =====
-- The core of coinext: the trading domain model, the pre-trade risk gate, the execution engine, the
-- simulated venue, the backtest kernel that drives them and the continuity of a depth stream, as
-- executable definitions with the theorems that make them correct.
--
-- Parts and their interaction. Values and orders (Core, Model) are plain data. The cache holds the
-- instruments, marks, orders, books and positions of a process. A strategy's order goes to the execution
-- engine's `submit`, which screens it by the session rules, asks the risk gate, tracks it in the cache
-- and hands it to the venue; the venue answers by execution reports, which `apply_report` folds into the
-- order, the T+1 ledger and the position. The portfolio reads figures from the cache, and the risk gate
-- asks it. The live kernel folds the reports and market events of two clients through the same engines,
-- and sends orders that the risk gate approves to its client. In a backtest the kernel takes the least
-- time among the next market event, report, timer and expiry, moves its clock there, drains the venue's
-- reports into the execution engine, fires timers, hands the market event to the data engine, the venue
-- and the strategy, settles expired contracts and liquidates; a strategy acts through the commands that
-- its context queues, which the kernel runs after each handler. A market data adapter checks each depth
-- update for gaps before its deltas reach the order books.
--
-- Prelude: Boolean tests, lists, integers over native numbers, maps and sets of `std::collections`, and
--   B-tree maps as sorted lists; nothing of it is code of the repository.
-- Core (foundation/crates/coinext-core/src)
--   Core/Error: `ModelError` without the text of a variant (error.rs), and `?` as a do block.
--   Core/Decimal: what is used of rust_decimal and f64, as a record of operations.
--   Core/Price, Core/Quantity, Core/Currency, Core/Money: value.rs. `raw` is an integer with the i64 or
--     i128 bounds written out by `checked`.
--   Core/Time, Core/Clock, Core/SystemClock: time.rs and the clocks of clock.rs; what the wall clock gives
--     at its n-th reading is a parameter.
-- Model (foundation/crates/coinext-model/src)
--   Model/Enums, Model/Ids, Model/Fill, Model/MarketData, Model/Instrument: the files of those names; an
--     instrument is a data type with a constructor for each implementation of the trait.
--   Model/Order: order.rs. `apply` returns the new order or the error.
--   Model/OrderBook: order_book.rs, each side a sorted list; a view forgets the lists.
--   Model/Position, Model/Account: position.rs and account.rs; Model/Position/Booking: the cases of a
--     fill by the sides and sizes, apart from the signs of decimals.
-- Cache: foundation/crates/coinext-cache/src/lib.rs. A hash map is an association list in the order of
--   first insertion, so a sum over positions is taken in that order.
-- Ports (foundation/crates/coinext-ports/src): commands.rs and traits.rs, the traits as records of functions.
--   Ports/Factory, Ports/Context: the order factory and the strategy context of context.rs; the clock and
--     the store that the context shares are arguments.
--   Ports/Bus: bus.rs, and the in-process bus of operations-interface/crates/coinext-bus/src/lib.rs. A
--     handler is a function on a state that the bus keeps beside it.
-- Portfolio: risk-portfolio/crates/coinext-portfolio/src/lib.rs.
-- RiskGate: risk-portfolio/crates/coinext-risk-engine/src/lib.rs; the atomic switch is a field.
-- Exec (execution-live/crates/coinext-exec-engine/src/lib.rs)
--   Exec/Session: day keys, price limits and sellable sizes; Exec/Submit: `submit` and `cancel`;
--   Exec/Report: `apply_report`. The shared cells are one state that each call takes and returns. The
--   venue that `submit` calls is the interface `Venue`, of any state.
-- Sim (backtesting-simulation/crates/coinext-sim/src)
--   Sim/Brokerage: brokerage.rs, the model of a venue's economics as a record of functions, its provided
--     methods and the default model.
--   Sim/Queue: the `DelayedEventQueue` of lib.rs, its heap a list in the order in which entries leave;
--     Sim/Intake: `on_submit` and `on_cancel`, which fill the interface `Venue`.
--   Sim/Tick, Sim/Matching, Sim/Market: `on_market`. The code collects its decisions in lists of indices and
--     writes them back; here `decide` gives the outcome for one resting order, and the loop writes it back
--     at once, which is the same since an order's outcome reads only that order.
-- DataEngine: market-data/crates/coinext-data-engine/src/lib.rs.
-- Kernel (backtesting-simulation/crates/coinext-kernel/src: backtest.rs, live.rs, the configuration of types.rs)
--   Kernel: the state, with the events and expiries that its cursors have not passed; a strategy, whose
--     handlers are trees of the calls that they make of their context. Kernel/Commands: handlers, events and
--     the outbox; Kernel/Settle: expiry and liquidation; Kernel/Step: the rounds of `run`; Kernel/Build:
--     `build`. A sort by key is insertion into a sorted list, stable as the library's.
--   Kernel/Live (live.rs): the port-driven kernel. Its clients are interfaces, a call a new state and an
--     error; what its streams deliver, in the order in which the loop takes it, is a list that ends where
--     the loop breaks. `?` is `and_then`, and `run` a chain of stages.
-- EventStore (operations-interface/crates/coinext-persistence/src: `append` and `replay` of event_store.rs)
--   The table is a list of rows without an order of its own, on which the statements of SQL are functions;
--   the codec of serde_json and the faults of SQLite are parameters. EventStore/Log: chains of calls.
-- Network (market-data/crates/coinext-network/src: rest.rs, sign.rs, error.rs, `acquire` of ratelimit.rs)
--   Network: requests, the retry rule, queries and their encoding. Network/Send: `send`, whose run is the list
--     of attempts with what came back, the pauses between them and the result. The answers of the venue by
--     attempt, the clock, the HMAC, the check of a header and the bucket of the limiter are parameters.
-- DepthBook: `LocalOrderBook` of market-data/crates/coinext-adapters-binance/src/book.rs.
-- Tests: sample decimals, which round as documented, and the theorems at concrete inputs.
--
-- Bounds. i64 and i128 results are checked where the code checks them and saturate where it saturates;
-- timer ids and the counters of the venue wrap at 2 ^ 64, day keys at 2 ^ 32. The search for a previous
-- close takes the 40 steps of the code. A strategy may set timers or send orders without end, so `run`
-- has a bound on its rounds and answers `none` at the bound; for a strategy that only watches, more
-- rounds than events and instruments are enough. The loop of `send` has max_retries + 1 turns, after
-- which no attempt is left. No other loop needs fuel. Decimal operators are total here, where the
-- library panics on a result of more than 96 bits and on a division by zero.
--
-- Not modelled: of the kernels the equity curve, which is in floating point, the snapshot for Python and
-- the messages on their bus, on which no other state depends; the paper clients, the port adapter of the
-- venue, the order service, the rest of persistence, the Binance adapters, the sockets and ingestion,
-- which are async or I/O; indicators and derivatives, which compute in floating point; the Python
-- bindings; display and serialization.
pub mod Prelude
pub mod Core
pub mod Model
pub mod Cache
pub mod Ports
pub mod Portfolio
pub mod RiskGate
pub mod Exec
pub mod Sim
pub mod DepthBook
pub mod DataEngine
pub mod Kernel
pub mod EventStore
pub mod Network
pub mod Tests

-- ===== src/Lib.antt =====
-- A model of the core of an agent that trades on the exchange OKX, and what is proved of it.
--
-- The program's crates build on each other: `okx-kernel` computes on ranges of bars, `okx-api` talks
-- to the exchange under a budget of requests and with evidence of its clock, `okx-ws` and
-- `okx-observation` take in the streams, `okx-runtime` keeps the state of the connections,
-- `okx-execution` decides which orders are sent, and `okx-agent` serves research jobs and orders.
--
-- - Kernel: `Kernel.TimeSeries` is crates/okx-kernel/src/time_series.rs: `strict`, `normalize`,
--   `relative_closed` and `coverage`, with each loop a recursion over its list or its rounds.
-- - Api: `Api.Rate` is crates/okx-api/src/rate.rs: the types in Types, the plans and policies in
--   Plans, `admit_at`, `record_exchange_throttle` and the other operations in Budget, the loop of
--   `admit_wait` in Wait. The state behind the mutex goes in and comes out of each operation.
--   `Api.Clock` is crates/okx-api/src/clock.rs.
-- - Observation: `Observation.OrderBook` is crates/okx-observation/src/order_book.rs. A side of a
--   book, a `BTreeMap` by price, is a list in the order of the prices. `Observation.Reference` is the
--   registry of instruments of crates/okx-observation/src/reference.rs: Normalize checks one
--   instrument, Registry loads and updates all. `Observation.Market` is the snapshot of a market of
--   crates/okx-observation/src/market.rs, `Observation.Stream` the live view of it of
--   crates/okx-observation/src/stream.rs, on the types of `Api.PublicData`.
-- - Runtime: `Runtime.Private` is crates/okx-runtime/src/private/state.rs with the types of
--   crates/okx-ws/src/private_protocol.rs; Calls makes a run of its operations. `Runtime.Public` is
--   crates/okx-runtime/src/public/state.rs and subscriptions.rs beside it, with the subscriptions of
--   crates/okx-ws/src/protocol.rs; it holds the live views and hands out their snapshots.
--   Demands is `touch_demand` of crates/okx-runtime/src/public/coordinator.rs.
-- - Execution: `Execution.Admission` is crates/okx-execution/src/risk/admission.rs and
--   crates/okx-execution/src/finance/coverage.rs. `Execution.Attribution` is
--   crates/okx-execution/src/finance/attribution.rs.
-- - Agent: `Agent.Budget` is crates/okx-agent/src/analytics/budget.rs, on the research requests of
--   crates/okx-protocol/src/analytics.rs, `Protocol.Analytics`. `Agent.Cursor` is
--   crates/okx-agent/src/analytics/cursor.rs.
-- - Prelude: names, tests, lists, maps, machine words and integers that the others share.
--   `Prelude.Decimals` is the interface of `rust_decimal`: numbers that are read from texts and
--   totally ordered. `Prelude.Samples` has numbers for the runs in the modules called Tests.
--
-- Numbers of type `u64` are natural numbers with the checks, the saturation and the wrap-around of
-- the source written out; `i64` is the type ℤ. The counters of `coverage` wrap around; theorems on
-- all of them ask for fewer than 2^64 times. An `Instant` is an unbounded number of nanoseconds, so
-- an addition of a duration to it does not fail. Only `admit_wait` runs on fuel, a number of rounds:
-- one more than the longest wait has milliseconds is enough, since each round but the last sleeps for
-- a millisecond or more. Every other loop goes over a list or a number that the code has.
--
-- Not modelled: what is asynchronous, but for the sleeps of `admit_wait`; the payloads of events on
-- the private streams and the numbers of type `f64`, which are parameters; the fingerprints and
-- digests, SHA-256 over texts and JSON, base64, and the calendar of `chrono`, also parameters;
-- storage, transport, and the crates that are not named above.
pub mod Prelude
pub mod Protocol
pub mod Kernel
pub mod Api
pub mod Observation
pub mod Runtime
pub mod Agent
pub mod Execution

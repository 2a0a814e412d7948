-- ===== src/Lib.antt =====
-- A verification library of crossvenue, which keeps order books of several venues in step with
-- their feeds, looks for price differences between them, checks the risk and simulates the trades.
--
-- The parts and how they interact. A venue's adapter sends normalized events
-- (internal/domain/types.go) to the pipeline (internal/marketdata/pipeline.go). Each pair of a
-- venue and a symbol has a lane: a channel, a sequence tracker (internal/book/seq.go) and a book
-- (internal/book/book.go), which the book manager shares with readers as an immutable view
-- (internal/book/atomic.go). The opportunity engine (internal/opportunity/engine.go) and the risk
-- engine (internal/risk/risk.go) read views; the execution simulator
-- (internal/execution/execution.go) fills orders against views; the ledger
-- (internal/portfolio/portfolio.go) settles the fills. The supervisor (internal/engine/engine.go)
-- wires them from a configuration (internal/config/config.go), records the events that come in
-- (internal/replay/replay.go) and journals what happens (internal/journal/journal.go). All amounts
-- are fixed-point numbers (pkg/decimal/decimal.go).
--
-- Which file models which part:
--   Base         shared names, Boolean tests, integers, results that may panic, lists, maps, the
--                order of texts
--   Decimal      `Fixed` and its arithmetic (pkg/decimal/decimal.go); laws in Decimal/Exact,
--                Decimal/Quotient and Decimal/Whole; `Parse` and `String` in Decimal/Text, their
--                round trip in Decimal/Text/RoundTrip
--   Domain       the events (internal/domain/types.go)
--   Seq          the trackers (internal/book/seq.go); laws in Seq/Order and Seq/Gaps
--   Book         one book (internal/book/book.go): the walk in Book/Walking, sorting in Book/Sort,
--                laws in Book/Levels, Book/Invariant, Book/Published, Book/Quotes, Book/Average
--   Manager      the book manager and the views (internal/book/book.go, internal/book/atomic.go)
--   Pipeline     the lanes (internal/marketdata/pipeline.go): one event in Pipeline/Lane, laws in
--                Pipeline/Ready, Pipeline/Resync, Pipeline/Rebuild, Pipeline/Soundness,
--                Pipeline/Interleaving, Pipeline/Registered
--   Portfolio    the ledger (internal/portfolio/portfolio.go); laws in Portfolio/Settle and
--                Portfolio/Refused
--   Execution    orders (internal/execution/execution.go): their fills against a view in
--                Execution/Filling, the simulator and the two legs in Execution/Simulating, laws in
--                Execution/States, Execution/Fills, Execution/Legs, Execution/Arbitrage and
--                Execution/Orders
--   Opportunity  the opportunity engine (internal/opportunity/engine.go); laws in Opportunity/Gates
--   Risk         the risk engine (internal/risk/risk.go); laws in Risk/Gates
--   Fnv          the digests' loops, as the journal, the book and the engine write them out
--   Journal      the event log (internal/journal/journal.go); laws in Journal/Bounded and
--                Journal/Concurrent
--   Config       the configuration (internal/config/config.go); laws in Config/Valid
--   Replay       the recording (internal/replay/replay.go); laws in Replay/RoundTrip
--   Engine       the supervisor (internal/engine/engine.go): its state in Engine/State, `New` in
--                Engine/Setup, `maybeExecute` in Engine/Decide and Engine/Trade, the passes in
--                Engine/Loop, the replay source (internal/engine/source.go) in Engine/Source with a
--                law in Engine/Source/Sent; laws in Engine/Startup, Engine/Executing,
--                Engine/Guards, Engine/Halted and Engine/Kept
--   Venue        the adapters: the handlers of internal/venue/okx/okx.go, bybit/bybit.go and
--                binance/binance.go beside it in Venue/Okx, Venue/Bybit and Venue/Binance, the
--                generator (internal/venue/synthetic/synthetic.go) in Venue/Synthetic with a law in
--                Venue/Synthetic/Feed, the connection (internal/venue/wsbase/wsbase.go) in
--                Venue/Connection, its read loop in Venue/Session, with laws, and its loop over
--                sessions in Venue/Reconnecting with laws in Venue/Reconnecting/Backoff
--   Api          the handlers (internal/api/api.go): their views in Api/Views; laws in Api/Ready and
--                Api/Paths
--   Service      the process while it serves: `Run` of internal/engine/engine.go with the goroutines
--                of the pipeline and the handlers; laws in Service/Halted, Service/Lanes and
--                Service/Passes
--   Storage      the database (internal/storage/storage.go, migrations/001_init.sql); laws in
--                Storage/Portfolio and Storage/Recovery
--   Command      the start and the end of the program (cmd/crossvenue/main.go) with laws in
--                Command/Starting, cmd/loadgen/main.go in Command/Loadgen with laws in
--                Command/Loadgen/Replayed, and cmd/replay/main.go in Command/Replaying with laws in
--                Command/Replaying/Printed
--   Witnesses    the theorems at concrete inputs
--
-- How state and operations correspond. A Go struct is a record, and a method that changes it is a
-- function that returns the changed record, under the method's name in lower case with
-- underscores. An int64 is the integer that it stands for, and int64 operations wrap around where
-- the source's do (`wrap64`). A panic is an outcome (`Outcome`), an error result a value. A Go map
-- is an association list with one entry for a key; where Go's iteration has no order, a theorem
-- holds for every order or the model says that it takes the list's. Locks make a method one step,
-- so concurrency is a sequence of steps, between which nothing is locked. A time is its
-- nanoseconds; clocks are arguments.
--
-- Third parties. encoding/json and hash/fnv are a parameter of the recording, `Codec`: a line for
-- an envelope and back, with the law that an envelope whose numbers fit its fields is read back,
-- and the size of a line, which the reader's scanner bounds by 4 MiB. In the adapters what
-- encoding/json reads from a message is a parameter, and so is math/rand (`Rng`): a state, and a
-- number below the bound that is asked for. The replay source's float64 and the number that
-- fmt.Sscanf scans are a parameter too (`Floats`). PostgreSQL is a parameter of Storage: `Numeric`
-- for its decimal columns, with the laws that they take every decimal of an int64 and keep it, and
-- an answer for each call, lost answers among them; a query lists its rows in any order. The YAML
-- package is not modelled: `load` starts from the configuration that it filled in. A text that is
-- parsed or hashed is its bytes; a printed identifier is its number where only its identity is
-- used. The readings of the clocks in one pass of the supervisor are one value for each clock.
--
-- Bounds and fuel. Loops of the source that are modelled walk a list, except three over digits:
-- `scale_up` has fuel for the eight digits of the scale, and the printing of a number has the
-- number itself, which is more than its digits; the round trip of decimals rests on both being
-- enough. Uint64 counters wrap where the source's do; Go int counters that only count events are
-- natural numbers.
--
-- Not modelled: the channels by which `Supervisor.Run` starts and stops its goroutines, whose work
-- are the acts of Service, and `LiveSource` (internal/engine); the dialling, the subscription frames
-- and the heartbeat of the WebSocket and the ticker of the generator (internal/venue), metrics and
-- clocks; the routes of net/http, signals and logging (cmd). The metrics and the resync hook of the
-- pipeline are recorded as effects in the order of the calls; the supervisor runs them. In
-- Service a pass of the evaluation is cut into steps at the decision of the risk engine; the rest of
-- a trade behind it, a request, a lane's event with its dequeueing, and a sweep are one step each,
-- though the source holds no lock for all of it. The journal as the supervisor uses it sends to its
-- sinks within the call; Journal/Concurrent lets the sends of several calls interleave.
pub mod Base
pub mod Decimal
pub mod Domain
pub mod Seq
pub mod Book
pub mod Manager
pub mod Pipeline
pub mod Portfolio
pub mod Execution
pub mod Opportunity
pub mod Risk
pub mod Fnv
pub mod Journal
pub mod Config
pub mod Replay
pub mod Engine
pub mod Venue
pub mod Api
pub mod Service
pub mod Storage
pub mod Command
pub mod Witnesses

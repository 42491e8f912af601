-- ===== src/Lib.antt =====
-- mcp-loadtest: a load generator for MCP servers, and the distributed runs of it.
--
-- A run records its calls in the recorder of crates/core/src/metrics, and its report passes or fails by the
-- thresholds of crates/engine/src/run/thresholds.rs and by `Report::passed`. The crate
-- `crates/distributed` splits one load test over several workers. A controller
-- (`ControllerJobState`, crates/distributed/src/state.rs) keeps an entry per agent and moves it by the
-- frames that arrive; each worker (`AgentStateMachine`, the same file) keeps its own phase. They talk by
-- the frames of crates/distributed/src/protocol.rs, and a worker's report is the evidence of
-- crates/distributed/src/aggregate.rs.
--
-- Base: names of the libraries passed on, tests, lists, results, ordered maps (BTreeMap as an
--   association list sorted by its keys), JSON values, floating-point numbers, characters and addresses.
-- Core.Metrics, Outcome: the metric records of crates/core/src/metrics/types.rs and
--   crates/core/src/outcome.rs.
-- Core.Recorder: `Recorder` of crates/core/src/metrics/mod.rs with its counters and sharded histograms.
--   Threads has a call of `record` or `record_tool` as a sequence of actions, each under one atomic
--   operation or one lock, and runs of several threads whose actions come in any order; `begin` is the
--   first action of a call and `go` the next of its thread. An `Arc` of a tool's state is the name of its
--   entry, as entries are never removed. hdrhistogram is the parameter `Hdr`, with its laws in Counts.
-- Core.Report, Coverage, Thresholds: `Report` and its verdict `passed` (crates/core/src/report.rs),
--   crates/core/src/coverage.rs and the thresholds of crates/core/src/config/mod.rs.
-- Distributed.Plan, Wire, Evidence: the data of crates/distributed/src/protocol.rs and of the first
--   part of crates/distributed/src/aggregate.rs, a structure per structure with the fields' names.
-- Distributed.Controller: `ControllerJobState`. `accept` looks up the agent and runs `dispatch`, whose
--   clauses are the arms of the source's match; an arm is an `on_*` function in Controller/Handlers. A
--   method that takes `&mut self` returns the new state beside its result, so that what an early return
--   leaves written is visible. Moves has the arms as a relation, Run the histories of calls; Invariant,
--   Later, Gate, Sent, Target, Frames, Ending and Cancel have what is proved.
-- Distributed.Worker: `AgentStateMachine` in the same manner; `cancelled_ack` is its `cancelled`.
--
-- Distributed.Session: the two machines side by side. What one sends is handed to the other at once, so
--   frames that cross on the way are not in it.
-- Distributed.Aggregate: `aggregate_evidence` and its helpers. `Merge` has the variables of its loop,
--   `merge_agent` a round of it and `finish` what follows it. The crates hdrhistogram and base64 are the
--   parameter `Histograms`; what a theorem needs of them is a hypothesis (Laws, AddsSamples).
-- Distributed.Shard: `plan_shards` of crates/distributed/src/shard.rs.
-- Distributed.Policy: `AgentPolicy::authorize` of crates/distributed/src/policy.rs and its checks, with
--   `is_managed_remote_header` of crates/core/src/config/validate.rs. The crate url is the parameter
--   `UrlParser`; Base.Address parses an `IpAddr` as the standard library does. Addresses has the restricted
--   addresses as ranges, and Brackets the hosts that the parser reads as no address.
-- Distributed.Cohort: lists of names in rising order, which both of these give out.
-- Engine.RaceDetector: `analyze` of crates/engine/src/race_detector.rs; of serde_json it takes the text of
--   a number and the escape of a text as the parameter `SerdeJson`.
-- Engine.Thresholds: crates/engine/src/run/thresholds.rs; a check returns the violations that it pushes,
--   whose texts are the kind of the text and the values in it. Engine.LeakDetect is the `detect_leak` of
--   crates/engine/src/scenario/soak/leak_detect.rs.
-- Engine.Pool: `drive_pooled` of crates/engine/src/scenario/pool.rs. What the tasks come to, in the order in
--   which they are joined, and what the gate and the timers come to are the argument `Events`; its `+=` wrap.
-- Engine.BreakingPoint: `BreakingPointDetector` of crates/engine/src/breaking_point.rs; its trigger is
--   the kind of the text and the values that the text is formatted from.
-- Protocol.HangDetector: `hang_detect` of crates/protocol/src/hang_detector.rs. What its two `select!`s
--   come to, the answer of the call or a timer, is an argument, with the time that has passed.
-- Auth: challenge.rs, scope.rs, policy.rs and error.rs of crates/auth/src. A text is the list of its code
--   points, and the crate url the parameter `parse_url`. Challenge has the parser, whose scans recurse over
--   the text; Challenge.Quoting, Rendering and RoundTrip have what it makes of a challenge that is written by
--   the header's grammar. Scope has the sets of scopes and the tracker of step-ups. IpAddresses and
--   EndpointPolicy are policy.rs: the record `Url` has what the methods of the crate url give, and looking up
--   a domain and building a client are arguments.
-- Output.History: `analyze_trend` of crates/output/src/history/trend.rs, with the samples and policies of
--   crates/output/src/history/types.rs. A median is of a list that is not empty; doubles are compared by
--   `total_cmp`, for a NaN as if it were positive.
--
-- The sums of the aggregation are checked as the source checks them, against 2 ^ 32 and 2 ^ 64; a `f64`
-- is exact in units of 2 ^ -1074 and its operations round to nearest even, on fuel for the at most 2100
-- doublings of the unit that a double can need. The counters of the recorder and of the pool wrap.
-- Elsewhere numbers are unbounded, where the source only stores and compares them (sequence numbers,
-- durations, counts of workers). Every other loop is over a list, but for the decimal digits of an error
-- text, where the number itself is more fuel than it has digits.
-- Not modelled: the JSON spelling of the frames, pipes, subprocesses and timers; the transports and
-- sessions of MCP, the exchange of tokens, the loading and validation of a configuration, the scenarios but
-- for the pool, the rendering of reports and the command line, which read, write and format around these
-- parts.
pub mod Auth
pub mod Base
pub mod Core
pub mod Distributed
pub mod Engine
pub mod Output
pub mod Protocol

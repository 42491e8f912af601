-- ===== src/Core/Recorder/Tests.antt =====
-- Two threads that race for the first call of a tool, with histograms as lists of their samples.
use mcp_loadtest.Base.{
  ℕ, ◌+◌, List, [], ◌∷◌, ◌++◌, length, length-append, String, some, ◌≡◌, refl, arith,
}
use mcp_loadtest.Base.Float.{of_nat}
use mcp_loadtest.Base.Map.{get, insert, update}
use mcp_loadtest.Base.Order.{str_ord}
use mcp_loadtest.Core.Metrics.{contributes_to_latency}
use mcp_loadtest.Core.Metrics.CallOutcome.{success, server_error}
use mcp_loadtest.Core.Recorder.{Hdr, snapshot, snapshot_per_tool, bump, merged, record_us}
use mcp_loadtest.Core.Recorder.Counters.{Counts}
use mcp_loadtest.Core.Recorder.Threads.{Call, System, Event, begin, go, act, count_call, run, fresh}
use mcp_loadtest.Core.Recorder.Exact.{Faithful, OfTool, calls_of, snapshots}

abbrev lists : Hdr
lists = record {
  Histogram = List ℕ;
  empty = [];
  record_value = λ v h. v ∷ h;
  merge = λ a b. a ++ b;
  len = length;
  value_at_quantile = λ h q. 1;
  mean = λ h. of_nat 1;
  min = λ h. 1;
  max = λ h. 1;
}

lists_counts : Counts lists
lists_counts = record {
  len_empty = refl;
  len_record = λ v h low high. omega arith;
  len_merge = length-append;
}

abbrev call : Call
call = record { tool = some "echo"; duration = 2000000; outcome = success }

abbrev failure : Call
failure = record { tool = some "echo"; duration = 5000000; outcome = server_error }

-- Both threads miss the entry before either has inserted it.
abbrev race : List (Event lists)
race =
    begin 0 call
    ∷ begin 1 failure
    ∷ go 0 1
    ∷ go 1 2
    ∷ go 0 3
    ∷ go 1 4
    ∷ go 1 5
    ∷ go 0 6
    ∷ go 0 7
    ∷ go 1 8
    ∷ go 1 9
    ∷ go 0 10
    ∷ []

abbrev raced : System lists
raced = run lists (λ i. 16 + i) (fresh lists 2 0) race

raced_latencies : merged lists raced.recorder.latency ≡ 2000 ∷ []
unfolding merged run fresh act count_call bump record_us contributes_to_latency get insert update
raced_latencies = refl

raced_entries : length raced.recorder.per_tool ≡ 1
unfolding run fresh act count_call bump record_us contributes_to_latency get insert update
raced_entries = refl

snapshots_example :
    Faithful raced.calls (snapshot lists 100 raced.recorder)
    × ((t : String)
        → OfTool lists
            (calls_of lists t raced.calls)
            (get t (snapshot_per_tool lists 100 raced.recorder.per_tool)))
unfolding run fresh act count_call bump record_us contributes_to_latency get insert update
snapshots_example =
    snapshots lists lists_counts (λ i. 16 + i) 2 0 race (refl, (refl, tt)) (omega arith) 100

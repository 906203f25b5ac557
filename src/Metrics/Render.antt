-- ===== src/Metrics/Render.antt =====
-- `renderMetrics` of src/metrics.ts: the text that the server shows to Prometheus. What Node measures of
-- the process is given, as is the text of a sum of durations.
use streamgive_backend.Prelude.{
  ℕ, ◌-◌, String, Option, none, some, List, [], ◌∷◌, ◌++◌, codes, show_ℕ,
}
use streamgive_backend.Db.Exec.{Metrics}
use streamgive_backend.Metrics.{
  HttpKey, Bucket, http_duration_buckets, Histogram, HttpMetrics, key_labels,
}

infixl 10 ◌>>=◌
abbrev ◌>>=◌ : {A B : Type 0} → Option A → (A → Option B) → Option B
none >>= f = none
(some a) >>= f = f a

module _ {A : Type 0} where
  -- A `for` loop over a map: the lines of each entry, from its labels and its value.
  abbrev pub entry_lines :
      (List ℕ → A → List (List ℕ)) → List (HttpKey × A) → Option (List (List ℕ))
  entry_lines block [] = some []
  entry_lines block (entry ∷ entries) = do
    metric_labels ← key_labels entry.0
    rest ← entry_lines block entries
    some (block metric_labels entry.1 ++ rest)

abbrev pub request_lines : (metric_labels : List ℕ) (count : ℕ) → List (List ℕ)
request_lines metric_labels count =
    (codes "streamgive_http_requests_total{" ++ metric_labels ++ codes "} " ++ codes (show_ℕ count))
    ∷ []

abbrev pub duration_metric : List ℕ
duration_metric = codes "streamgive_http_request_duration_seconds"

abbrev pub bucket_line : (metric_labels le : List ℕ) (counter : ℕ) → List ℕ
bucket_line metric_labels le counter =
    duration_metric
    ++ codes "_bucket{"
    ++ metric_labels
    ++ codes ",le=\""
    ++ le
    ++ codes "\"} "
    ++ codes (show_ℕ counter)

abbrev pub bucket_lines : (metric_labels : List ℕ) → List Bucket → List ℕ → List (List ℕ)
bucket_lines metric_labels (b ∷ bs) (counter ∷ counters) =
    bucket_line metric_labels b.shown counter ∷ bucket_lines metric_labels bs counters
bucket_lines metric_labels _ _ = []

-- `seconds` is the text of a sum of durations, in seconds.
abbrev pub duration_lines :
    (seconds : ℕ → List ℕ) (metric_labels : List ℕ) → Histogram → List (List ℕ)
duration_lines seconds metric_labels value =
    bucket_lines metric_labels http_duration_buckets value.buckets
    ++ bucket_line metric_labels (codes "+Inf") value.count
      ∷ (duration_metric ++ codes "_sum{" ++ metric_labels ++ codes "} " ++ seconds value.sum)
      ∷ (duration_metric
          ++ codes "_count{"
          ++ metric_labels
          ++ codes "} "
          ++ codes (show_ℕ value.count))
      ∷ []

-- The texts of what Node measures.
pub record Process : Type 0 where
  pub cpu_seconds : List ℕ
  pub start_time_seconds : List ℕ
  pub rss : List ℕ
  pub heap_total : List ℕ
  pub heap_used : List ℕ
  pub external : List ℕ
  pub array_buffers : List ℕ
  pub event_loop_utilization : List ℕ

abbrev metric : (name help kind : String) (shown : List ℕ) → List (List ℕ)
metric name help kind shown =
    (codes "# HELP " ++ codes name ++ codes " " ++ codes help)
    ∷ (codes "# TYPE " ++ codes name ++ codes " " ++ codes kind)
    ∷ (codes name ++ codes " " ++ shown)
    ∷ []

pub process_lines : Process → List (List ℕ)
process_lines p =
    metric "process_cpu_seconds_total" "Total user and system CPU time spent in seconds." "counter"
      p.cpu_seconds
    ++ metric "process_start_time_seconds"
        "Start time of the process since the Unix epoch in seconds." "gauge" p.start_time_seconds
    ++ metric "process_resident_memory_bytes" "Resident memory size in bytes." "gauge" p.rss
    ++ metric "nodejs_heap_size_total_bytes" "Total size of the V8 heap in bytes." "gauge"
        p.heap_total
    ++ metric "nodejs_heap_size_used_bytes" "Used size of the V8 heap in bytes." "gauge" p.heap_used
    ++ metric "nodejs_external_memory_bytes"
        "Memory used by C++ objects bound to JavaScript objects." "gauge" p.external
    ++ metric "nodejs_arraybuffer_bytes" "Memory allocated for ArrayBuffers and SharedArrayBuffers."
        "gauge" p.array_buffers
    ++ metric "nodejs_eventloop_utilization" "Event loop utilization since process start." "gauge"
        p.event_loop_utilization

-- The lag is `Math.max(0, latest - checkpoint)`.
pub indexer_lines : Metrics → List (List ℕ)
indexer_lines m =
    metric "streamgive_indexer_checkpoint_ledger" "Last ledger checkpointed by the indexer." "gauge"
      (codes (show_ℕ m.checkpoint_ledger))
    ++ metric "streamgive_indexer_latest_ledger" "Latest ledger observed from Stellar RPC." "gauge"
        (codes (show_ℕ m.latest_ledger))
    ++ metric "streamgive_indexer_lag_ledgers"
        "Difference between the latest and checkpoint ledgers." "gauge"
        (codes (show_ℕ (m.latest_ledger - m.checkpoint_ledger)))
    ++ metric "streamgive_indexer_events_processed_total"
        "Events successfully processed by the indexer." "counter"
        (codes (show_ℕ m.events_processed))
    ++ metric "streamgive_indexer_events_dead_lettered_total" "Events stored as dead letters."
        "counter" (codes (show_ℕ m.events_dead_lettered))
    ++ metric "streamgive_indexer_events_skipped_total"
        "Confirmed out-of-range skip-ahead operations." "counter" (codes (show_ℕ m.events_skipped))

abbrev delivery_line : (outcome : String) (deliveries : ℕ) → List ℕ
delivery_line outcome deliveries =
    codes "streamgive_notification_deliveries_total{outcome=\""
    ++ codes outcome
    ++ codes "\"} "
    ++ codes (show_ℕ deliveries)

pub delivery_lines : Metrics → List (List ℕ)
delivery_lines m =
    codes "# HELP streamgive_notification_deliveries_total Webhook notification delivery attempts."
    ∷ codes "# TYPE streamgive_notification_deliveries_total counter"
    ∷ delivery_line "success" m.deliveries_succeeded
    ∷ delivery_line "failure" m.deliveries_failed
    ∷ []

abbrev pub request_header : List (List ℕ)
request_header =
    codes "# HELP streamgive_http_requests_total Total HTTP requests handled."
    ∷ codes "# TYPE streamgive_http_requests_total counter"
    ∷ []

abbrev pub duration_header : List (List ℕ)
duration_header =
    codes "# HELP streamgive_http_request_duration_seconds HTTP request duration in seconds."
    ∷ codes "# TYPE streamgive_http_request_duration_seconds histogram"
    ∷ []

-- `lines.join('\n')`
abbrev pub join_lines : List (List ℕ) → List ℕ
join_lines [] = []
join_lines (line ∷ []) = line
join_lines (line ∷ next ∷ lines) = line ++ 10 ∷ join_lines (next ∷ lines)

unfoldable pub metric_lines :
    (seconds : ℕ → List ℕ) → Process → Metrics → HttpMetrics → Option (List (List ℕ))
metric_lines seconds p m http = do
  requests ← entry_lines request_lines http.http_requests
  durations ← entry_lines (duration_lines seconds) http.http_duration
  some (
      request_header
      ++ (requests
          ++ (duration_header
              ++ (durations ++ (process_lines p ++ (indexer_lines m ++ delivery_lines m))))))

unfoldable pub render_metrics :
    (seconds : ℕ → List ℕ) → Process → Metrics → HttpMetrics → Option (List ℕ)
unfolding metric_lines
render_metrics seconds p m http = do
  lines ← metric_lines seconds p m http
  some (join_lines lines ++ 10 ∷ [])

-- ===== src/Tests/Metrics.antt =====
-- The theorems on the metrics, at a few requests.
use streamgive_backend.Prelude.{ℕ, refl, List, [], ◌∷◌, codes}
use streamgive_backend.Db.Exec.{Metrics}
use streamgive_backend.Metrics.{http_key}
use streamgive_backend.Metrics.Counted.{HttpRequest, recorded, Counted, recorded-Counted}
use streamgive_backend.Metrics.Expected.{count_lines, histogram_lines}
use streamgive_backend.Metrics.Render.{Process, render_metrics}
use streamgive_backend.Metrics.Shown.{Shows, render_metrics-Shows}

abbrev request : List ℕ → ℕ → ℕ → HttpRequest
request route status_code duration = record {
  method = codes "GET";
  route = route;
  status_code = status_code;
  duration = duration;
}

abbrev requests : List HttpRequest
requests =
    request (codes "/ngos") 200 7000000
    ∷ request (codes "/ngos") 404 1000000
    ∷ request (codes "/ngos") 200 30000000
    ∷ []

abbrev process : Process
process = record {
  cpu_seconds = codes "0.5";
  start_time_seconds = codes "1700000000";
  rss = codes "1000";
  heap_total = codes "900";
  heap_used = codes "800";
  external = codes "70";
  array_buffers = codes "6";
  event_loop_utilization = codes "0.1";
}

abbrev counters : Metrics
counters = record {
  checkpoint_ledger = 90;
  latest_ledger = 100;
  events_processed = 5;
  events_dead_lettered = 1;
  events_skipped = 0;
  deliveries_succeeded = 2;
  deliveries_failed = 3;
}

abbrev seconds : ℕ → List ℕ
seconds n = codes "0.037"

abbrev ngos : List ℕ
ngos = codes "/ngos"

recorded-Counted_example : Counted (http_key (codes "GET") ngos 200) requests
recorded-Counted_example = recorded-Counted (http_key (codes "GET") ngos 200) requests

render_metrics-Shows_example :
    Shows
      (render_metrics seconds process counters (recorded requests))
      (count_lines (codes "GET") ngos 200 requests)
    × Shows
        (render_metrics seconds process counters (recorded requests))
        (histogram_lines seconds (codes "GET") ngos 200 requests)
render_metrics-Shows_example =
    render_metrics-Shows seconds process counters requests (codes "GET") ngos 200 refl refl
      ((refl, refl), ((refl, refl), ((refl, refl), tt))) refl

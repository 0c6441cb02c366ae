-- ===== src/Examples/Scraping.antt =====
-- Node usage from the kubelet and a document with a number at a path.
use app_lifecycle_kubernetes.Base.{ℕ, true, none, some, [], Result, ok, err, ◌≡◌, refl}
use app_lifecycle_kubernetes.Base.Int.{pos}
use app_lifecycle_kubernetes.Types.{node_usage, AdaptiveThrottlingConfig, SignalChecksConfig}
use app_lifecycle_kubernetes.Base.Text.{split}
use app_lifecycle_kubernetes.Signals.{no_metrics}
use app_lifecycle_kubernetes.Signals.Collect.{NodeMetricsCache, Found, collect_signals}
use app_lifecycle_kubernetes.Signals.Enabled.{Enabled}
use app_lifecycle_kubernetes.Signals.Kinds.{OfType}
use app_lifecycle_kubernetes.Signals.Json.{Json, null, object, end, field, extract_json_path}
use app_lifecycle_kubernetes.Signals.Json.Paths.{put, extract_json_path-put}
use app_lifecycle_kubernetes.Signals.Readers.{Metrics}
use app_lifecycle_kubernetes.Signals.Scraping.{check_node_usage}
use app_lifecycle_kubernetes.Signals.Scraping.Origins.{collect_signals-Enabled}
use app_lifecycle_kubernetes.Examples.Fixtures.{throttling, World, client, world}

-- Every node uses 3.5 cores and 2000 bytes.
abbrev metrics : Metrics World ℕ
metrics = record {
  has_rest_client = true;
  kubelet_summary =
      λ name w. (ok (ok (record { usage_nano_cores = 3500000000; usage_bytes = 2000 })), w);
  new_request = λ url. ok tt;
  get = λ url w. (ok (200, ok null), w);
  float_to_int32 = λ f. pos f;
}

abbrev usage_checks : SignalChecksConfig
usage_checks = record {
  check_node_ready = none;
  check_node_pressure = none;
  check_pending_pods = none;
  check_node_usage = some (record {
    enabled = true;
    cpu_threshold_percent = 0;
    memory_threshold_percent = 0;
    slowdown_percent = 50;
    scrape = none;
  });
  check_container_restarts = none;
}

abbrev usage_throttling : AdaptiveThrottlingConfig
usage_throttling = record throttling { signal_checks = some usage_checks }

abbrev empty_cache : NodeMetricsCache
empty_cache = record {
  signals = [];
  average_cpu = pos 0;
  average_memory = pos 0;
  fetched_at = 0;
  ttl = 0;
}

abbrev Collected : Type 0
Collected = Result Found × (NodeMetricsCache × World)

abbrev run : Collected
run =
    collect_signals client (check_node_usage metrics client) (some usage_throttling) "shop"
      (empty_cache, record world { clock = 100000000000 })

abbrev found_of : Result Found → Found
found_of (ok found) = found
found_of (err e) = ([], no_metrics)

-- The ready node uses 87 percent of its CPU and a quarter of its memory.
run_averages : (found_of run.0).1.average_cpu_percent ≡ pos 87
unfolding collect_signals check_node_usage
run_averages = refl

runs : run ≡ (ok (found_of run.0), run.1)
unfolding collect_signals check_node_usage
runs = refl

collect_signals-Enabled_example :
    Enabled usage_checks (found_of run.0).0 × OfType node_usage run.1.0.signals
collect_signals-Enabled_example =
    collect_signals-Enabled metrics client usage_throttling usage_checks "shop"
      (empty_cache, record world { clock = 100000000000 }) (found_of run.0) run.1 tt refl runs

abbrev document : Json ℕ
document = object (field "node" (object (field "name" null end)) end)

extract_json_path-put_example :
    extract_json_path (put (split "node.cpu" ".") 42 document) "node.cpu" ≡ ok 42
extract_json_path-put_example = extract_json_path-put "node.cpu" 42 document

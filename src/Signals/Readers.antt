-- ===== src/Signals/Readers.antt =====
-- The readers of a node's usage in internal/controller/signals.go: from the kubelet through the API
-- server, or from a URL of the node.
use app_lifecycle_kubernetes.Base.{
  ℕ, ◌/◌, String, Bool, not, Option, none, some, Action, Result, message, pure, throw, ◌>>=◌,
  wrapping, ◌==◌, str_eq, if◌then◌else◌,
}
use app_lifecycle_kubernetes.Base.Int.{ℤ, pos, to_int32, to_int64, quotient, hundredfold}
use app_lifecycle_kubernetes.Base.Decimal.{itoa}
use app_lifecycle_kubernetes.Base.Text.{◌+++◌}
use app_lifecycle_kubernetes.Types.{MetricsScrapeConfig}
use app_lifecycle_kubernetes.Kube.{Node}
use app_lifecycle_kubernetes.Signals.{get_node_ip}
use app_lifecycle_kubernetes.Signals.Json.{Json, extract_json_path}

-- The fields of `KubeletStatsResponse`, which are uint64.
pub record KubeletStats : Type 0 where
  pub usage_nano_cores : ℕ
  pub usage_bytes : ℕ

-- What lies outside: the REST client's read of a node's summary and its decoding; an HTTP GET, whose
-- request may be malformed, with its status and the decoded body; the conversion of a float64.
pub record Metrics (W F : Type 0) : Type 0 where
  pub has_rest_client : Bool
  pub kubelet_summary : String → Action W (Result KubeletStats)
  pub new_request : String → Result (Unit {0})
  pub get : String → Action W (ℕ × Result (Json F))
  pub float_to_int32 : F → ℤ

-- A result that is at hand.
abbrev lifted : {W A : Type 0} → Result A → Action W A
lifted r w = (r, w)

-- The percentage of a raw value, `int32((used * 100) / allocatable)` over int64.
unfoldable pub raw_percent : ℤ → ℕ → ℤ
unfolding to_int64 to_int32
raw_percent used allocatable = to_int32 (quotient (to_int64 (hundredfold used)) allocatable)

module _ {W F : Type 0} (m : Metrics W F) where
  abbrev kubelet_stats : String → Action W KubeletStats
  kubelet_stats name =
      if not m.has_rest_client
      then throw (message "REST client not available")
      else (wrapping ("failed to query kubelet stats for node " +++ name) (m.kubelet_summary name)
          >>= λ parsed. wrapping "failed to parse kubelet stats" (lifted parsed))

  -- Millicores.
  unfoldable pub get_node_cpu_usage : String → Action W ℤ
  get_node_cpu_usage name =
      kubelet_stats name >>= λ stats. pure (pos (stats.usage_nano_cores / 1000000))

  unfoldable pub get_node_memory_usage : String → Action W ℤ
  unfolding to_int64
  get_node_memory_usage name =
      kubelet_stats name >>= λ stats. pure (to_int64 (pos stats.usage_bytes))

  -- Both readers of a URL: the address of the node before the port and path, and the name of the value
  -- in the error texts.
  abbrev fetch_number : Node → String → String → String → Action W F
  fetch_number node port_and_path path name = do
    ip ← wrapping ("failed to get IP for node " +++ node.name) (lifted (get_node_ip node))
    let url = "http://" +++ (ip +++ port_and_path)
    sent ← wrapping ("failed to create request to " +++ url) (lifted (m.new_request url))
    answer ← wrapping ("failed to fetch from " +++ url) (m.get url)
    if not (answer.0 == 200)
        then throw
            (message ("unexpected status code " +++ (itoa (pos answer.0) +++ (" from " +++ url))))
        else (wrapping ("failed to parse JSON response from " +++ url) (lifted answer.1)
            >>= λ document.
                wrapping
                  ("failed to extract " +++ (name +++ (" path '" +++ (path +++ "' from response"))))
                  (lifted (extract_json_path document path)))

  unfoldable pub get_node_cpu_usage_from_url :
      Node → String → Option MetricsScrapeConfig → Action W F
  unfolding get_node_ip extract_json_path
  get_node_cpu_usage_from_url node source none =
      throw (message "scrape.cpu path is required when using URL source")
  get_node_cpu_usage_from_url node source (some config) =
      if str_eq config.cpu ""
      then throw (message "scrape.cpu path is required when using URL source")
      else fetch_number node source config.cpu "CPU"

  unfoldable pub get_node_memory_usage_from_url :
      Node → String → Option MetricsScrapeConfig → Action W F
  unfolding get_node_ip extract_json_path
  get_node_memory_usage_from_url node source none =
      throw (message "scrape.mem path is required when using URL source")
  get_node_memory_usage_from_url node source (some config) =
      if str_eq config.mem ""
      then throw (message "scrape.mem path is required when using URL source")
      else fetch_number node source config.mem "memory"

  -- The percentages of CPU and memory of a node; an error makes the loop skip the node.
  unfoldable pub read_percents :
      Option MetricsScrapeConfig → Node → Option String → Action W (ℤ × ℤ)
  unfolding get_node_ip get_node_cpu_usage_from_url get_node_memory_usage_from_url
      get_node_cpu_usage get_node_memory_usage raw_percent
  read_percents config node (some source) = lifted (get_node_ip node) >>= λ ip.
      get_node_cpu_usage_from_url node source config >>= λ cpu.
      get_node_memory_usage_from_url node source config >>= λ memory.
      pure (m.float_to_int32 cpu, m.float_to_int32 memory)
  read_percents config node none = get_node_cpu_usage node.name >>= λ cpu.
      get_node_memory_usage node.name >>= λ memory.
      pure (raw_percent cpu node.allocatable_cpu, raw_percent memory node.allocatable_memory)

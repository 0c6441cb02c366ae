-- ===== src/Signals/Scraping.antt =====
-- `checkNodeUsage` of internal/controller/signals.go.
pub mod Origins
use app_lifecycle_kubernetes.Base.{
  ℕ, suc, zero, ◌+◌, ◌-◌, ◌*◌, ◌/◌, ◌%◌, String, Bool, true, false, not, ◌&&◌, ◌||◌, Option, none,
  some, List, [], ◌∷◌, ◌++◌, Action, Result, ok, err, message, pure, throw, ◌>>=◌, wrapping, ltb,
  leb, ◌==◌, str_eq, if◌then◌else◌, default_if_zero,
}
use app_lifecycle_kubernetes.Base.Int.{
  ℤ, pos, negsuc, to_int32, to_int64, quotient, hundredfold, ◌+ℤ◌,
}
use app_lifecycle_kubernetes.Base.Decimal.{itoa}
use app_lifecycle_kubernetes.Base.Dict.{Dict}
use app_lifecycle_kubernetes.Base.Text.{◌+++◌}
use app_lifecycle_kubernetes.Types.{Signal, SignalSeverity, node_usage, MetricsScrapeConfig}
use app_lifecycle_kubernetes.Kube.{Node, KubeCondition, is_true}
use app_lifecycle_kubernetes.Client.{Client}
use app_lifecycle_kubernetes.Signals.{get_node_ip, or_workers}
use app_lifecycle_kubernetes.Signals.Collect.{Usage}
use app_lifecycle_kubernetes.Signals.Readers.{Metrics, read_percents}

-- The source of a URL; none stands for the kubelet.
abbrev url_source : Option MetricsScrapeConfig → Option String
url_source none = none
url_source (some config) =
    if not (str_eq config.source "") && not (str_eq config.source "kubelet")
    then some config.source
    else none

abbrev reaches : ℤ → ℕ → Bool
reaches (pos n) threshold = leb threshold n
reaches (negsuc n) threshold = false

-- Any Ready condition that is true will do here.
unfoldable pub is_any_ready : List KubeCondition → Bool
is_any_ready [] = false
is_any_ready (c ∷ rest) =
    let later = is_any_ready rest in
    if str_eq c.type "Ready" && is_true c.status then true else later

abbrev pub is_measured : Node → Bool
is_measured node =
    is_any_ready node.conditions && not (node.allocatable_cpu == 0 || node.allocatable_memory == 0)

-- The variables of the loop over the nodes.
pub record Totals : Type 0 where
  pub signals : List Signal
  pub total_cpu : ℤ
  pub total_memory : ℤ
  pub node_count : ℕ

abbrev usage_signal : Node → ℤ → ℤ → Signal
usage_signal node cpu memory = record {
  type = node_usage;
  severity = SignalSeverity.warning;
  node = node.name;
  condition = "";
  count = 0;
  message =
      "Node "
      +++ (node.name
          +++ (" high usage (CPU: " +++ (itoa cpu +++ ("%, Memory: " +++ (itoa memory +++ "%)")))));
}

-- What a node's reading adds, by the thresholds of CPU and memory.
unfoldable pub add_reading : ℕ → ℕ → Node → Result (ℤ × ℤ) → Totals → Totals
unfolding to_int32
add_reading cpu_threshold memory_threshold node (err e) t = t
add_reading cpu_threshold memory_threshold node (ok (cpu, memory)) t = record {
  signals =
      if reaches cpu cpu_threshold || reaches memory memory_threshold
      then t.signals ++ (usage_signal node cpu memory ∷ [])
      else t.signals;
  total_cpu = to_int32 (t.total_cpu +ℤ cpu);
  total_memory = to_int32 (t.total_memory +ℤ memory);
  node_count = suc t.node_count;
}

abbrev average : ℤ → ℕ → ℤ
average total count = if ltb 0 count then quotient total count else pos 0

-- All nodes serve where no node has the selector's labels.
abbrev nodes_or_all : {W : Type 0} → Client W → List Node → Action W (List Node)
nodes_or_all c [] = c.list_nodes none
nodes_or_all c (node ∷ nodes) = pure (node ∷ nodes)

abbrev conclude_usage : {W : Type 0} → Totals × W → Result Usage × W
conclude_usage (t, w) =
    (ok (t.signals, average t.total_cpu t.node_count, average t.total_memory t.node_count), w)

module _ {W F : Type 0} (m : Metrics W F) where
  unfoldable pub measure_nodes :
      ℕ → ℕ → Option MetricsScrapeConfig → List Node → Totals → W → Totals × W
  unfolding read_percents is_any_ready add_reading
  measure_nodes cpu memory config [] t w = (t, w)
  measure_nodes cpu memory config (node ∷ rest) t w = elim (is_measured node) [
    | true ↦
        let (reading, w₁) = read_percents m config node (url_source config) w in
        measure_nodes cpu memory config rest (add_reading cpu memory node reading t) w₁
    | false ↦ measure_nodes cpu memory config rest t w
  ]

  unfoldable pub check_node_usage :
      Client W → Option (Dict String) → ℕ → ℕ → Option MetricsScrapeConfig → Action W Usage
  unfolding measure_nodes
  check_node_usage c selector cpu memory config = do
    found ← c.list_nodes (some (or_workers selector))
    nodes ← nodes_or_all c found
    λ w. conclude_usage (
        measure_nodes (default_if_zero 80 cpu) (default_if_zero 80 memory) config nodes
          (record { signals = []; total_cpu = pos 0; total_memory = pos 0; node_count = 0 }) w)

-- ===== src/Signals/Collect.antt =====
-- `collectSignals` of internal/controller/signals.go and the cache of node metrics of
-- internal/controller/namespacelifecyclepolicy_controller.go, which the reconciler keeps for all
-- policies. The cache goes along with the world; `scrape` is the call of `checkNodeUsage`.
use app_lifecycle_kubernetes.Base.{
  ℕ, ◌*◌, ◌-◌, String, Option, none, some, List, [], ◌∷◌, ◌++◌, Action, Result, ok, err, pure,
  ◌>>=◌, wrapping, ltb, default_if_zero, if◌then◌else◌,
}
use app_lifecycle_kubernetes.Base.Int.{ℤ}
use app_lifecycle_kubernetes.Base.Dict.{Dict}
use app_lifecycle_kubernetes.Types.{
  Signal, AdaptiveThrottlingConfig, SignalChecksConfig, NodeReadyCheckConfig,
  NodePressureCheckConfig, PendingPodsCheckConfig, NodeUsageCheckConfig,
  ContainerRestartsCheckConfig, MetricsScrapeConfig,
}
use app_lifecycle_kubernetes.Client.{Client}
use app_lifecycle_kubernetes.Signals.{
  ThrottlingMetrics, no_metrics, check_node_readiness, check_node_pressure, check_pending_pods,
  check_container_restarts,
}

-- Signals and the average percentages of CPU and memory.
abbrev pub Usage : Type 0
Usage = List Signal × ℤ × ℤ

-- `nodeMetricsCache`; times and `ttl` are in nanoseconds, and `fetched_at` is 0 before the first fetch.
pub record NodeMetricsCache : Type 0 where
  pub signals : List Signal
  pub average_cpu : ℤ
  pub average_memory : ℤ
  pub fetched_at : ℕ
  pub ttl : ℕ

-- `get` at a time.
unfoldable pub cache_get : NodeMetricsCache → ℕ → Option Usage
cache_get cache now =
    if ltb (now - cache.fetched_at) cache.ttl
    then some (cache.signals, cache.average_cpu, cache.average_memory)
    else none

-- `set` at a time.
unfoldable pub cache_set : Usage → ℕ → NodeMetricsCache → NodeMetricsCache
cache_set (signals, cpu, memory) now cache = record cache {
  signals = signals;
  average_cpu = cpu;
  average_memory = memory;
  fetched_at = now;
}

abbrev pub Found : Type 0
Found = List Signal × ThrottlingMetrics

-- The thresholds that are passed to the scrape.
abbrev pub Scrape : Type 0 → Type 0
Scrape W = Option (Dict String) → ℕ → ℕ → Option MetricsScrapeConfig → Action W Usage

-- An action that leaves the cache alone.
abbrev pub lift : {W A : Type 0} → Action W A → Action (NodeMetricsCache × W) A
lift m (cache, w) = let (r, w₁) = m w in (r, (cache, w₁))

-- The time to live is set by the first policy that gets here.
abbrev pub with_ttl : AdaptiveThrottlingConfig → NodeMetricsCache → NodeMetricsCache
with_ttl config cache = record cache {
  ttl = default_if_zero (default_if_zero 5000000000 (config.batch_interval * 1000000000)) cache.ttl;
}

abbrev pub option_list : Option Signal → List Signal
option_list none = []
option_list (some s) = s ∷ []

module _ {W : Type 0} (c : Client W) (scrape : Scrape W) where
  -- What a scrape's answer leaves in the cache.
  abbrev pub keep_usage :
      NodeMetricsCache → Result Usage × W → Result Usage × (NodeMetricsCache × W)
  keep_usage cache (err e, w) = (err e, (cache, w))
  keep_usage cache (ok usage, w) =
      let (now, w₁) = c.now w in (ok usage, (cache_set usage now cache, w₁))

  abbrev pub or_scrape : Option Usage → Action W Usage → Action (NodeMetricsCache × W) Usage
  or_scrape (some usage) m (cache, w) = (ok usage, (cache, w))
  or_scrape none m (cache, w) = keep_usage cache (m w)

  -- The usage from the cache, or from a new scrape.
  unfoldable pub read_usage :
      AdaptiveThrottlingConfig → NodeUsageCheckConfig → Action (NodeMetricsCache × W) Usage
  unfolding cache_get cache_set
  read_usage config check (cache, w) =
      let (now, w₁) = c.now w in
      let timed = with_ttl config cache in
      or_scrape (cache_get timed now)
        (scrape config.node_selector check.cpu_threshold_percent check.memory_threshold_percent
          check.scrape)
        (timed, w₁)

  unfoldable pub add_readiness :
      AdaptiveThrottlingConfig
      → Option NodeReadyCheckConfig
      → Found
      → Action (NodeMetricsCache × W) Found
  add_readiness config none found = pure found
  add_readiness config (some check) (signals, metrics) =
      if check.enabled
      then (lift (
            wrapping "failed to check node readiness" (check_node_readiness c config.node_selector))
          >>= λ r. pure (signals ++ r.0, record metrics { not_ready_nodes = r.1 }))
      else pure (signals, metrics)

  unfoldable pub add_pressure :
      AdaptiveThrottlingConfig
      → Option NodePressureCheckConfig
      → Found
      → Action (NodeMetricsCache × W) Found
  add_pressure config none found = pure found
  add_pressure config (some check) (signals, metrics) =
      if check.enabled
      then (lift (
            wrapping "failed to check node pressure"
              (check_node_pressure c config.node_selector check.pressure_types))
          >>= λ more. pure (signals ++ more, metrics))
      else pure (signals, metrics)

  unfoldable pub add_pending :
      Option PendingPodsCheckConfig → Found → Action (NodeMetricsCache × W) Found
  add_pending none found = pure found
  add_pending (some check) (signals, metrics) =
      if check.enabled
      then (lift (wrapping "failed to check pending pods" (check_pending_pods c check.threshold))
          >>= λ r. pure (signals ++ option_list r.0, record metrics { pending_pods_count = r.1 }))
      else pure (signals, metrics)

  unfoldable pub add_usage :
      AdaptiveThrottlingConfig
      → Option NodeUsageCheckConfig
      → Found
      → Action (NodeMetricsCache × W) Found
  unfolding read_usage
  add_usage config none found = pure found
  add_usage config (some check) (signals, metrics) =
      if check.enabled
      then (wrapping "failed to check node usage" (read_usage config check) >>= λ r. pure (
        signals ++ r.0,
        record metrics { average_cpu_percent = r.1; average_memory_percent = r.2 },
      ))
      else pure (signals, metrics)

  unfoldable pub add_restarts :
      String → Option ContainerRestartsCheckConfig → Found → Action (NodeMetricsCache × W) Found
  add_restarts namespace none found = pure found
  add_restarts namespace (some check) (signals, metrics) =
      if check.enabled
      then (lift (
            wrapping "failed to check container restarts"
              (check_container_restarts c namespace check.restart_threshold))
          >>= λ r. pure (signals ++ r.0, record metrics { unhealthy_pods = r.1 }))
      else pure (signals, metrics)

  unfoldable pub run_checks :
      AdaptiveThrottlingConfig
      → Option SignalChecksConfig
      → String
      → Action (NodeMetricsCache × W) Found
  unfolding add_readiness add_pressure add_pending add_usage add_restarts
  run_checks config none namespace = pure ([], no_metrics)
  run_checks config (some checks) namespace = do
    a ← add_readiness config checks.check_node_ready ([], no_metrics)
    b ← add_pressure config checks.check_node_pressure a
    d ← add_pending checks.check_pending_pods b
    e ← add_usage config checks.check_node_usage d
    add_restarts namespace checks.check_container_restarts e

  -- The whole function; without a configuration there is nothing to check.
  unfoldable pub collect_signals :
      Option AdaptiveThrottlingConfig → String → Action (NodeMetricsCache × W) Found
  unfolding run_checks
  collect_signals none namespace = pure ([], no_metrics)
  collect_signals (some config) namespace = run_checks config config.signal_checks namespace

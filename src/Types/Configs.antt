-- ===== src/Types/Configs.antt =====
-- The configuration of adaptive throttling and of its signal checks.
use app_lifecycle_kubernetes.Base.{ℕ, String, Bool, Option, List}
use app_lifecycle_kubernetes.Base.Dict.{Dict}

pub record NodeReadyCheckConfig : Type 0 where
  pub enabled : Bool
  pub wait_interval : ℕ
  pub max_wait_time : ℕ

pub record NodePressureCheckConfig : Type 0 where
  pub enabled : Bool
  pub pressure_types : List String
  pub slowdown_percent : ℕ

pub record PendingPodsCheckConfig : Type 0 where
  pub enabled : Bool
  pub threshold : ℕ
  pub slowdown_percent : ℕ

-- Where the usage of a node is read: the kubelet, or a URL with two JSON paths.
pub record MetricsScrapeConfig : Type 0 where
  pub source : String
  pub cpu : String
  pub mem : String

pub record NodeUsageCheckConfig : Type 0 where
  pub enabled : Bool
  pub cpu_threshold_percent : ℕ
  pub memory_threshold_percent : ℕ
  pub slowdown_percent : ℕ
  pub scrape : Option MetricsScrapeConfig

pub record ContainerRestartsCheckConfig : Type 0 where
  pub enabled : Bool
  pub restart_threshold : ℕ
  pub slowdown_percent : ℕ

pub record SignalChecksConfig : Type 0 where
  pub check_node_ready : Option NodeReadyCheckConfig
  pub check_node_pressure : Option NodePressureCheckConfig
  pub check_pending_pods : Option PendingPodsCheckConfig
  pub check_node_usage : Option NodeUsageCheckConfig
  pub check_container_restarts : Option ContainerRestartsCheckConfig

-- `node_selector` is `none` where the Go map is nil.
pub record AdaptiveThrottlingConfig : Type 0 where
  pub enabled : Bool
  pub initial_batch_size : ℕ
  pub min_batch_size : ℕ
  pub batch_interval : ℕ
  pub signal_checks : Option SignalChecksConfig
  pub node_selector : Option (Dict String)
  pub fallback_on_metrics_unavailable : Bool

pub record HealthEndpointCheck : Type 0 where
  pub url : String
  pub expected_status_codes : List ℕ
  pub timeout_seconds : ℕ

pub record PreConditionsConfig : Type 0 where
  pub enabled : Bool
  pub app_readiness_checks : List String
  pub health_endpoint_checks : List HealthEndpointCheck
  pub check_interval : ℕ
  pub timeout_seconds : ℕ
  pub block_priority_chain : Option Bool

pub record StartupNodeReadinessPolicy : Type 0 where
  pub enabled : Bool
  pub timeout_seconds : ℕ
  pub min_ready_nodes : ℕ
  pub require_all_nodes : Bool
  pub node_selector : Dict String

-- The two override fields are int64 values, each present or not.
pub record TerminationGracePeriodConfig : Type 0 where
  pub deployment : Option ℕ
  pub stateful_set : Option ℕ

-- ===== src/Types/Specs.antt =====
-- What a user asks for (`NamespaceLifecyclePolicySpec`).
-- `Selector` is the type of label selectors, which the API library interprets.
use app_lifecycle_kubernetes.Base.{ℕ, String, Bool, true, false, Option}
use app_lifecycle_kubernetes.Types.Configs.{
  TerminationGracePeriodConfig, StartupNodeReadinessPolicy, AdaptiveThrottlingConfig,
  PreConditionsConfig,
}

pub data LifecycleAction : Type 0 where
  freeze resume : LifecycleAction
  other : String → LifecycleAction

pub data StartupPolicy : Type 0 where
  ignore resume freeze : StartupPolicy
  other : String → StartupPolicy

-- A label selector, by its written form.
pub record LabelSelector : Type 0 where
  pub text : String

pub record Spec : Type 0 where
  pub target_namespace : String
  pub selector : Option LabelSelector
  pub action : LifecycleAction
  pub operation_id : String
  pub startup_policy : StartupPolicy
  pub balance_pods : Bool
  pub balance_window_seconds : ℕ
  pub termination_grace_period_seconds : Option TerminationGracePeriodConfig
  pub startup_node_readiness_policy : Option StartupNodeReadinessPolicy
  pub resume_delay : ℕ
  pub resume_priority : ℕ
  pub freeze_delay : ℕ
  pub freeze_priority : ℕ
  pub adaptive_throttling : Option AdaptiveThrottlingConfig
  pub pre_conditions : Option PreConditionsConfig
  pub handle_node_failure : Bool

abbrev pub is_freeze : LifecycleAction → Bool
is_freeze LifecycleAction.freeze = true
is_freeze _ = false

-- ===== src/Types/Statuses.antt =====
-- What the operator records about a policy (`NamespaceLifecyclePolicyStatus` and its parts).
use app_lifecycle_kubernetes.Base.{ℕ, String, Bool, true, false, Option, List}
use app_lifecycle_kubernetes.Types.Signals.{Signal}

-- `unset` is the empty text of a status that was never written.
pub data Phase : Type 0 where
  unset idle freezing frozen resuming resumed failed : Phase

pub record AdaptiveProgressStatus : Type 0 where
  pub total_workloads : ℕ
  pub resumed_workloads : ℕ
  pub current_batch_size : ℕ
  pub active_signals : List Signal
  pub last_check_time : Option ℕ
  pub message : String

pub record PreConditionsStatus : Type 0 where
  pub checking : Bool
  pub last_checked_at : Option ℕ
  pub passed : Bool
  pub message : String

-- The fields of `metav1.Condition` that the source writes; `status` is true at `ConditionTrue`.
pub record Condition : Type 0 where
  pub type : String
  pub status : Bool
  pub reason : String
  pub message : String
  pub last_transition_time : ℕ

pub record Status : Type 0 where
  pub phase : Phase
  pub last_handled_operation_id : String
  pub message : String
  pub last_startup_at : Option ℕ
  pub last_startup_action : String
  pub last_resume_at : Option ℕ
  pub startup_nodes_waited : Option ℕ
  pub startup_ready_nodes : Option ℕ
  pub adaptive_progress : Option AdaptiveProgressStatus
  pub node_ready_event_detected_at : Option ℕ
  pub node_ready_event_handled_at : Option ℕ
  pub node_failure_event_detected_at : Option ℕ
  pub node_failure_event_handled_at : Option ℕ
  pub failed_node_name : String
  pub affected_workloads : List String
  pub pending_startup_resume : Bool
  pub resume_delay_started_at : Option ℕ
  pub pending_freeze : Bool
  pub freeze_delay_started_at : Option ℕ
  pub last_freeze_at : Option ℕ
  pub pre_conditions_status : Option PreConditionsStatus
  pub conditions : List Condition

abbrev pub is_frozen : Phase → Bool
is_frozen frozen = true
is_frozen _ = false

abbrev pub is_failed : Phase → Bool
is_failed failed = true
is_failed _ = false

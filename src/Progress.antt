-- ===== src/Progress.antt =====
-- What the operator writes into the status of a policy: `updateStatus` and `updatePreConditionsStatus`
-- of internal/controller/namespacelifecyclepolicy_controller.go, and `updateAdaptiveProgress` and the
-- final update of `resumeWithAdaptiveThrottling` of internal/controller/adaptive_throttling.go.
pub mod Writes
use app_lifecycle_kubernetes.Base.{
  ℕ, String, Bool, true, false, Option, none, some, List, [], Action, ◌>>=◌, if◌then◌else◌,
}
use app_lifecycle_kubernetes.Base.Int.{pos}
use app_lifecycle_kubernetes.Base.Decimal.{itoa, number}
use app_lifecycle_kubernetes.Base.Text.{◌+++◌}
use app_lifecycle_kubernetes.Types.{
  Policy, Status, Phase, Signal, AdaptiveProgressStatus, PreConditionsStatus,
}
use app_lifecycle_kubernetes.Client.{Client}

-- The pattern that these share: the policy is read again, and its status is patched.
unfoldable pub patch_latest :
    {W : Type 0} → Client W → Policy → (Policy → Policy) → Action W (Unit {0})
patch_latest c policy change =
    c.retry_on_conflict
      (do latest ← c.get_policy policy.namespace policy.name; c.patch_status latest (change latest))

unfoldable pub with_status : Policy → Phase → String → Bool → Policy → Policy
with_status policy phase message is_startup latest = record latest {
  status = record latest.status {
    phase = phase;
    message = message;
    last_handled_operation_id =
        if is_startup then latest.status.last_handled_operation_id else policy.spec.operation_id;
  };
}

unfoldable pub update_status :
    {W : Type 0} → Client W → Policy → Phase → String → Bool → Action W (Unit {0})
unfolding patch_latest with_status
update_status c policy phase message is_startup =
    patch_latest c policy (with_status policy phase message is_startup)

unfoldable pub with_pre_conditions : PreConditionsStatus → Policy → Policy
with_pre_conditions status latest = record latest {
  status = record latest.status { pre_conditions_status = some status };
}

unfoldable pub update_pre_conditions_status :
    {W : Type 0} → Client W → Policy → PreConditionsStatus → Action W (Unit {0})
unfolding patch_latest with_pre_conditions
update_pre_conditions_status c policy status = patch_latest c policy (with_pre_conditions status)

abbrev pub progress :
    (resumed total batch_size : ℕ) → List Signal → ℕ → String → AdaptiveProgressStatus
progress resumed total batch_size signals check_time message = record {
  total_workloads = total;
  resumed_workloads = resumed;
  current_batch_size = batch_size;
  active_signals = signals;
  last_check_time = some check_time;
  message = message;
}

unfoldable pub with_progress : AdaptiveProgressStatus → Policy → Policy
with_progress p latest = record latest {
  status = record latest.status {
    adaptive_progress = some p;
    phase = Phase.resuming;
    message = p.message;
  };
}

unfoldable pub update_adaptive_progress :
    {W : Type 0}
    → Client W
    → Policy
    → (resumed total batch_size : ℕ) → List Signal
    → ℕ
    → String
    → Action W (Unit {0})
unfolding patch_latest with_progress
update_adaptive_progress c policy resumed total batch_size signals check_time message =
    patch_latest c policy
      (with_progress (progress resumed total batch_size signals check_time message))

abbrev completed_text : ℕ → String
completed_text total =
    "All workloads resumed successfully ("
    +++ (number total +++ ("/" +++ (number total +++ " completed)")))

-- The end of a resume; the phase is left as it is.
unfoldable pub with_completion : ℕ → ℕ → ℕ → Policy → Policy
with_completion total batch_size now latest = record latest {
  status = record latest.status {
    adaptive_progress = some (progress total total batch_size [] now (completed_text total));
    message = completed_text total;
    last_resume_at = some now;
  };
}

unfoldable pub complete_progress : {W : Type 0} → Client W → Policy → ℕ → ℕ → Action W (Unit {0})
unfolding patch_latest with_completion
complete_progress c policy total batch_size w =
    let (now, w₁) = c.now w in patch_latest c policy (with_completion total batch_size now) w₁

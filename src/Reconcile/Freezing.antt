-- ===== src/Reconcile/Freezing.antt =====
-- A startup freeze with a delay: the branch of `Reconcile` for `PendingFreeze`
-- (internal/controller/namespacelifecyclepolicy_controller.go).
use app_lifecycle_kubernetes.Base.{
  ℕ, ◌+◌, ◌-◌, String, false, not, Option, none, some, List, Action, pure, logged, ◌>>=◌, ◌>>◌, ltb,
  if◌then◌else◌,
}
use app_lifecycle_kubernetes.Base.Text.{◌+++◌}
use app_lifecycle_kubernetes.Types.{Policy, Phase}
use app_lifecycle_kubernetes.Kube.{Workload}
use app_lifecycle_kubernetes.Client.{Client}
use app_lifecycle_kubernetes.Override.{should_skip_operation}
use app_lifecycle_kubernetes.Reconcile.Parts.{
  Stage, answer, fall_through, finished, requeue_after, clock, effect, update_latest,
  cancel_pending, list_workloads, freeze_all, counts_text,
}

unfoldable pub with_freeze_cancelled : Policy → Policy
with_freeze_cancelled latest = record latest {
  status = record latest.status {
    pending_freeze = false;
    last_startup_action = "FREEZE_CANCELLED_BY_MANUAL_OVERRIDE";
  };
}

-- The pending flag is cleared on the policy at hand.
unfoldable pub with_freeze_cleared : Policy → Policy
with_freeze_cleared policy = record policy {
  status = record policy.status { pending_freeze = false };
}

unfoldable pub with_freeze_applied : String → ℕ → Policy → Policy
with_freeze_applied text now latest = record latest {
  status = record latest.status {
    phase = Phase.frozen;
    message = text;
    last_freeze_at = some now;
    last_startup_action = "FREEZE_APPLIED";
    pending_freeze = false;
  };
}

unfoldable pub freeze_found :
    {W : Type 0} → Client W → Policy → List Workload × List Workload → Action W Stage
unfolding freeze_all update_latest with_freeze_applied
freeze_found c policy found = do
  effect (freeze_all c policy found)
  now ← clock c
  update_latest c policy (
      with_freeze_applied
        ("Freeze applied after delay: completed successfully " +++ counts_text found) now)
  pure (answer finished)

unfoldable pub apply_freeze : {W : Type 0} → Client W → Policy → Action W Stage
unfolding list_workloads freeze_found
apply_freeze c policy = do found ← list_workloads c policy; freeze_found c policy found

-- What happens with the time at which the delay began; a time in the future counts as well.
unfoldable pub freeze_after_delay : {W : Type 0} → Client W → Policy → Option ℕ → Action W Stage
unfolding with_freeze_cleared apply_freeze
freeze_after_delay c policy none = do
  effect (logged (c.update_status (with_freeze_cleared policy)))
  pure (answer finished)
freeze_after_delay c policy (some started) = do
  now ← clock c
  if ltb now (started + policy.spec.freeze_delay)
      then pure (answer (requeue_after (started + policy.spec.freeze_delay - now)))
      else apply_freeze c policy

unfoldable pub pending_freeze_stage : {W : Type 0} → Client W → Policy → Action W Stage
unfolding cancel_pending with_freeze_cancelled freeze_after_delay
pending_freeze_stage c policy =
    if not policy.status.pending_freeze
    then pure (fall_through policy)
    else if not (should_skip_operation policy)
    then cancel_pending c policy with_freeze_cancelled
    else freeze_after_delay c policy policy.status.freeze_delay_started_at

-- ===== src/Reconcile/Resuming.antt =====
-- A startup resume with a delay: the branch of `Reconcile` for `PendingStartupResume`
-- (internal/controller/namespacelifecyclepolicy_controller.go).
use app_lifecycle_kubernetes.Base.{
  ℕ, ◌+◌, ◌-◌, String, Bool, true, false, not, ◌&&◌, Option, none, some, List, Action, Result, ok,
  err, pure, throw, logged, ◌>>=◌, ◌>>◌, ltb, str_eq, if◌then◌else◌,
}
use app_lifecycle_kubernetes.Base.Text.{◌+++◌}
use app_lifecycle_kubernetes.Types.{
  Policy, Phase, AdaptiveProgressStatus, PreConditionsConfig, PreConditionsStatus,
}
use app_lifecycle_kubernetes.Kube.{Workload}
use app_lifecycle_kubernetes.Client.{Client, describe}
use app_lifecycle_kubernetes.Priority.{is_blocked_by_higher_priority_resume}
use app_lifecycle_kubernetes.Progress.{with_pre_conditions}
use app_lifecycle_kubernetes.NodeFailure.{force_delete_terminating_pods}
use app_lifecycle_kubernetes.PreConditions.{check_pre_conditions}
use app_lifecycle_kubernetes.PreConditions.Wait.{enabled_config, checked_status}
use app_lifecycle_kubernetes.Reconcile.Parts.{
  Operator, Stage, answer, fall_through, finished, requeue_after, seconds, clock, effect,
  update_latest, cancel_pending, list_workloads, counts_text, enabled_throttling, is_aborted,
  resume_at_startup, is_failure_active,
}

unfoldable pub with_resume_cancelled : String → Policy → Policy
with_resume_cancelled action latest = record latest {
  status = record latest.status { pending_startup_resume = false; last_startup_action = action };
}

unfoldable pub with_resume_cleared : Policy → Policy
with_resume_cleared policy = record policy {
  status = record policy.status { pending_startup_resume = false };
}

-- The progress of the policy at hand, where it has one, goes over that of the latest.
abbrev pub progress_or :
    Option AdaptiveProgressStatus → Option AdaptiveProgressStatus → Option AdaptiveProgressStatus
progress_or none latest = latest
progress_or (some held) latest = some held

unfoldable pub with_resume_applied : String → ℕ → Option AdaptiveProgressStatus → Policy → Policy
with_resume_applied text now held latest = record latest {
  status = record latest.status {
    phase = Phase.resumed;
    message = text;
    last_resume_at = some now;
    last_startup_action = "RESUME_APPLIED";
    pending_startup_resume = false;
    adaptive_progress = progress_or held latest.status.adaptive_progress;
  };
}

-- The policy at hand while its pre-conditions do not hold.
unfoldable pub with_waiting : PreConditionsStatus → String → Policy → Policy
with_waiting status text policy = record policy {
  status = record policy.status {
    pre_conditions_status = some status;
    phase = Phase.resuming;
    message = text;
    pending_startup_resume = true;
  };
}

-- The whole status at hand over the latest one, but for the handled operation.
unfoldable pub with_held_status : Policy → Policy → Policy
with_held_status policy latest = record latest {
  status = record policy.status {
    last_handled_operation_id = latest.status.last_handled_operation_id;
  };
}

-- `BlockPriorityChain` with its default.
abbrev pub blocks_chain : PreConditionsConfig → Bool
blocks_chain config = elim config.block_priority_chain [ none ↦ true | some b ↦ b ]

-- The message of the status where the check fails, which a blocking policy leaves as it is, and where
-- it says no.
abbrev error_message : Bool → Policy → String
error_message true policy = policy.status.message
error_message false policy = "Waiting for pre-conditions (non-blocking mode)"

abbrev wait_message : Bool → String → String
wait_message true text = "Waiting for pre-conditions: " +++ text
wait_message false text = "Waiting for pre-conditions (non-blocking mode - other policies continue)"

-- The status is written, with an error logged, and the check is due again.
unfoldable pub hold_resume :
    {W : Type 0} → Client W → Policy → PreConditionsConfig → String → String → Action W Stage
unfolding update_latest with_held_status with_waiting
hold_resume c policy config text status_message = do
  now ← clock c
  effect (
      logged (
        update_latest c policy (
          with_held_status
            (with_waiting (checked_status true now false text) status_message policy))))
  pure (answer (requeue_after (seconds config.check_interval)))

abbrev resumed_text : Option AdaptiveProgressStatus → List Workload × List Workload → String
resumed_text none found = "Startup resume applied: completed after delay " +++ counts_text found
resumed_text (some held) found =
    "Startup resume applied: "
    +++ (if str_eq held.message ""
        then "completed after delay " +++ counts_text found
        else held.message)

-- After the final status: pods that are stuck on a failed node are deleted, now and every 30 seconds.
unfoldable pub tidy_failed_node : {W : Type 0} → Client W → Policy → Action W Stage
tidy_failed_node c policy =
    if policy.spec.handle_node_failure && not (str_eq policy.status.failed_node_name "")
    then (effect (force_delete_terminating_pods c policy policy.status.failed_node_name)
        >> pure (answer (requeue_after (seconds 30))))
    else pure (answer finished)

unfoldable pub finish_resume :
    {W : Type 0} → Client W → Policy → List Workload × List Workload → Action W Stage
unfolding update_latest with_resume_applied tidy_failed_node
finish_resume c policy found = do
  now ← clock c
  update_latest c policy (
      with_resume_applied (resumed_text policy.status.adaptive_progress found) now
        policy.status.adaptive_progress)
  tidy_failed_node c policy

-- What the resume of the workloads leads to.
unfoldable pub after_resume :
    {W : Type 0}
    → Client W
    → Policy
    → List Workload × List Workload
    → Result (Unit {0})
    → Action W Stage
unfolding finish_resume
after_resume c policy found (ok _) = finish_resume c policy found
after_resume c policy found (err e) = if is_aborted c e then pure (answer finished) else throw e

unfoldable pub run_resume :
    {W : Type 0} → Operator W → Policy → List Workload × List Workload → Action W Stage
unfolding resume_at_startup after_resume
run_resume op policy found w =
    let (done, w₁) =
      resume_at_startup op policy found (enabled_throttling policy.spec.adaptive_throttling) w in
    after_resume op.client policy found done w₁

-- What the check of the pre-conditions leads to.
unfoldable pub after_gate :
    {W : Type 0}
    → Operator W
    → Policy
    → List Workload × List Workload
    → PreConditionsConfig
    → Result (Bool × String)
    → Action W Stage
unfolding hold_resume run_resume
after_gate op policy found config (err e) =
    hold_resume op.client policy config ("Error checking pre-conditions: " +++ describe op.client e)
      (error_message (blocks_chain config) policy)
after_gate op policy found config (ok (false, text)) =
    hold_resume op.client policy config text (wait_message (blocks_chain config) text)
after_gate op policy found config (ok (true, text)) = do
  now ← clock op.client
  run_resume op
      (with_pre_conditions (checked_status false now true "All pre-conditions passed") policy) found

unfoldable pub gate_resume :
    {W : Type 0}
    → Operator W
    → Policy
    → List Workload × List Workload
    → Option PreConditionsConfig
    → Action W Stage
unfolding after_gate run_resume
gate_resume op policy found none = run_resume op policy found
gate_resume op policy found (some config) = λ w.
    let (checked, w₁) = check_pre_conditions op.client op.http policy w in
    after_gate op policy found config checked w₁

unfoldable pub apply_resume : {W : Type 0} → Operator W → Policy → Action W Stage
unfolding list_workloads gate_resume
apply_resume op policy = do
  found ← list_workloads op.client policy
  gate_resume op policy found (enabled_config policy.spec.pre_conditions)

unfoldable pub resume_after_delay : {W : Type 0} → Operator W → Policy → Option ℕ → Action W Stage
unfolding with_resume_cleared apply_resume
resume_after_delay op policy none = do
  effect (logged (op.client.update_status (with_resume_cleared policy)))
  pure (answer finished)
resume_after_delay op policy (some started) = do
  now ← clock op.client
  if ltb now (started + policy.spec.resume_delay)
      then pure (answer (requeue_after (started + policy.spec.resume_delay - now)))
      else apply_resume op policy

-- The priority gate, and what is behind it.
unfoldable pub resume_in_turn : {W : Type 0} → Operator W → Policy → Action W Stage
unfolding resume_after_delay
resume_in_turn op policy = do
  blocked ← is_blocked_by_higher_priority_resume op.client policy
  if blocked
      then pure (answer (requeue_after (seconds 10)))
      else resume_after_delay op policy policy.status.resume_delay_started_at

-- A manual operation that is asked for and was not handled.
abbrev pub is_unhandled : Policy → Bool
is_unhandled policy =
    not (str_eq policy.spec.operation_id "")
    && not (str_eq policy.status.last_handled_operation_id policy.spec.operation_id)

unfoldable pub pending_resume_stage : {W : Type 0} → Operator W → Policy → Action W Stage
unfolding cancel_pending with_resume_cancelled resume_in_turn is_failure_active
pending_resume_stage op policy w =
    if not policy.status.pending_startup_resume
    then pure (fall_through policy) w
    else if not (op.startup_complete w)
    then pure (answer (requeue_after (seconds 2))) w
    else if is_failure_active policy
    then cancel_pending op.client policy (with_resume_cancelled "CANCELLED_BY_NODE_FAILURE") w
    else if is_unhandled policy
    then cancel_pending op.client policy (with_resume_cancelled "CANCELLED_BY_MANUAL_OVERRIDE") w
    else resume_in_turn op policy w

-- ===== src/Reconcile/Manual.antt =====
-- A manual operation: the last part of `Reconcile`
-- (internal/controller/namespacelifecyclepolicy_controller.go).
pub mod Loops
pub mod Cluster
pub mod Outcome
pub mod Calm
pub mod Released
pub mod Throttled
pub mod Resumed
use app_lifecycle_kubernetes.Base.{
  ℕ, String, Bool, true, false, not, ◌&&◌, Option, none, some, List, [], ◌∷◌, Action, Result, ok,
  err, Error, panicked, pure, throw, logged, ◌>>=◌, ◌>>◌, default_if_zero, length, is_some,
  if◌then◌else◌,
}
use app_lifecycle_kubernetes.Base.Text.{◌+++◌, contains}
use app_lifecycle_kubernetes.Types.{
  Policy, Phase, LifecycleAction, PreConditionsConfig, AdaptiveThrottlingConfig, is_freeze,
}
use app_lifecycle_kubernetes.Kube.{Workload}
use app_lifecycle_kubernetes.Client.{Client, describe}
use app_lifecycle_kubernetes.Progress.{update_status, update_pre_conditions_status}
use app_lifecycle_kubernetes.Workloads.{
  freeze_deployment, freeze_stateful_set, resume_deployment, resume_stateful_set,
  filter_workloads_requiring_resume,
}
use app_lifecycle_kubernetes.PreConditions.{check_pre_conditions}
use app_lifecycle_kubernetes.PreConditions.Wait.{
  enabled_config, checked_status, wait_for_pre_conditions,
}
use app_lifecycle_kubernetes.Base.Decimal.{number}
use app_lifecycle_kubernetes.Reconcile.Parts.{
  Operator, Requeue, finished, requeue, requeue_after, seconds, clock, effect, update_latest,
  enabled_throttling, is_aborted, is_empty, resume_throttled,
}
use app_lifecycle_kubernetes.Reconcile.Resuming.{blocks_chain}
use app_lifecycle_kubernetes.Reconcile.Acts.{
  report_phase, fail_with, or_fail, each_or_fail, freeze_now, with_manual_resume,
  finish_manual_resume, after_throttled, resume_now,
}

-- An error of the pre-conditions: a timeout is not tried again.
unfoldable pub fail_conditions : {W : Type 0} → Client W → Policy → Error → Action W Requeue
unfolding report_phase fail_with
fail_conditions c policy e =
    if contains "timeout" (describe c e)
    then (effect (report_phase c policy Phase.failed ("Pre-conditions timeout: " +++ describe c e))
        >> pure finished)
    else fail_with c policy "Pre-conditions check failed" e

-- The blocking mode: what the wait leads to. Too little fuel for it counts as a fault of the program.
unfoldable pub after_conditions :
    {W : Type 0}
    → Operator W
    → Policy
    → List Workload × List Workload
    → W
    → Option (Result (Unit {0}) × W)
    → Result Requeue × W
unfolding resume_now fail_conditions
after_conditions op policy found w none = (err (panicked "out of fuel"), w)
after_conditions op policy found w (some (ok _, w₁)) =
    resume_now op policy found (enabled_throttling policy.spec.adaptive_throttling) w₁
after_conditions op policy found w (some (err e, w₁)) =
    if contains "cancelled" (describe op.client e)
    then (ok requeue, w₁)
    else fail_conditions op.client policy e w₁

-- The other mode: what one check leads to.
unfoldable pub after_one_check :
    {W : Type 0}
    → Operator W
    → Policy
    → List Workload × List Workload
    → PreConditionsConfig
    → Result (Bool × String)
    → Action W Requeue
unfolding resume_now fail_conditions
after_one_check op policy found config (err e) = fail_conditions op.client policy e
after_one_check op policy found config (ok (false, text)) = do
  now ← clock op.client
  effect
      (logged (update_pre_conditions_status op.client policy (checked_status true now false text)))
  pure (requeue_after (seconds (default_if_zero 5 config.check_interval)))
after_one_check op policy found config (ok (true, text)) = do
  now ← clock op.client
  effect (
      logged (
        update_pre_conditions_status op.client policy
          (checked_status false now true "All pre-conditions passed")))
  resume_now op policy found (enabled_throttling policy.spec.adaptive_throttling)

unfoldable pub check_then_resume :
    {W : Type 0}
    → Operator W
    → Policy
    → List Workload × List Workload
    → PreConditionsConfig
    → Bool
    → Action W Requeue
unfolding after_conditions after_one_check
check_then_resume op policy found config true w =
    after_conditions op policy found w
      (wait_for_pre_conditions op.client op.http op.select policy false op.wait_fuel w)
check_then_resume op policy found config false w =
    let (checked, w₁) = check_pre_conditions op.client op.http policy w in
    after_one_check op policy found config checked w₁

unfoldable pub resume_checked :
    {W : Type 0}
    → Operator W
    → Policy
    → List Workload × List Workload
    → Option PreConditionsConfig
    → Action W Requeue
unfolding resume_now check_then_resume
resume_checked op policy found none =
    resume_now op policy found (enabled_throttling policy.spec.adaptive_throttling)
resume_checked op policy found (some config) = do
  update_status op.client policy Phase.resuming "Checking pre-conditions before resume" false
  check_then_resume op policy found config (blocks_chain config)

-- A resume of those workloads that were frozen.
unfoldable pub resume_found :
    {W : Type 0} → Operator W → Policy → List Workload × List Workload → Action W Requeue
unfolding resume_checked
resume_found op policy found =
    if is_empty found.0 && is_empty found.1
    then (update_status op.client policy Phase.resumed
          "No workloads require resume (all already resumed)" false
        >> pure finished)
    else resume_checked op policy found (enabled_config policy.spec.pre_conditions)

unfoldable pub act :
    {W : Type 0}
    → Operator W
    → Policy
    → List Workload
    → List Workload
    → LifecycleAction
    → Action W Requeue
unfolding freeze_now resume_found
act op policy deployments stateful_sets LifecycleAction.freeze =
    freeze_now op.client policy (deployments, stateful_sets)
act op policy deployments stateful_sets LifecycleAction.resume =
    resume_found op policy (filter_workloads_requiring_resume deployments stateful_sets)
act op policy deployments stateful_sets (LifecycleAction.other text) = pure finished

abbrev pub phase_under_way : LifecycleAction → Phase
phase_under_way action = if is_freeze action then Phase.freezing else Phase.resuming

abbrev phase_of_nothing : LifecycleAction → Phase
phase_of_nothing LifecycleAction.resume = Phase.resumed
phase_of_nothing _ = Phase.frozen

abbrev nothing_text : Bool → String
nothing_text true = "No resources matched the selector in namespace"
nothing_text false = "No deployments or statefulsets found in namespace"

-- Nothing to do where no workloads are selected.
unfoldable pub act_on_found :
    {W : Type 0} → Operator W → Policy → List Workload → List Workload → Action W Requeue
unfolding report_phase act
act_on_found op policy deployments stateful_sets =
    if is_empty deployments && is_empty stateful_sets
    then (effect (
          report_phase op.client policy (phase_of_nothing policy.spec.action)
            (nothing_text (is_some policy.spec.selector)))
        >> pure finished)
    else act op policy deployments stateful_sets policy.spec.action

unfoldable pub list_then_act : {W : Type 0} → Operator W → Policy → Action W Requeue
unfolding act_on_found fail_with
list_then_act op policy w =
    or_fail op.client policy "Failed to list deployments"
      (op.client.deployments.list policy.spec.target_namespace policy.spec.selector w)
      (λ deployments w₁.
        or_fail op.client policy "Failed to list statefulsets"
          (op.client.stateful_sets.list policy.spec.target_namespace policy.spec.selector w₁)
          (act_on_found op policy deployments))

unfoldable pub run_operation : {W : Type 0} → Operator W → Policy → Action W Requeue
unfolding list_then_act
run_operation op policy = do
  update_status op.client policy (phase_under_way policy.spec.action) "Processing request" false
  list_then_act op policy

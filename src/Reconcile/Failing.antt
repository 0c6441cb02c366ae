-- ===== src/Reconcile/Failing.antt =====
-- Node failures in `Reconcile`: the scale-down of what ran on the failed node alone, and the loop that
-- deletes stuck pods until the node is back (internal/controller/namespacelifecyclepolicy_controller.go).
use app_lifecycle_kubernetes.Base.{
  ℕ, String, Bool, true, false, not, ◌&&◌, none, some, List, [], ◌∷◌, Action, Result, ok, err, pure,
  logged, ◌>>=◌, ◌>>◌, any, str_eq, if◌then◌else◌,
}
use app_lifecycle_kubernetes.Types.{Policy, Condition}
use app_lifecycle_kubernetes.Kube.{Node, KubeCondition, is_true}
use app_lifecycle_kubernetes.Client.{Client}
use app_lifecycle_kubernetes.Override.{should_skip_operation}
use app_lifecycle_kubernetes.Progress.{patch_latest}
use app_lifecycle_kubernetes.NodeFailure.{handle_node_failure_event, force_delete_terminating_pods}
use app_lifecycle_kubernetes.NodeFailure.Degraded.{set_degraded_condition}
use app_lifecycle_kubernetes.Reconcile.Parts.{
  Stage, answer, fall_through, requeue, requeue_after, seconds, clock, effect, is_failure_active,
}

-- The event is handled, an existing operation counts as handled, and a resume is pending.
unfoldable pub with_failure_scaled : ℕ → List String → List Condition → Policy → Policy
with_failure_scaled now affected conditions latest = record latest {
  status = record latest.status {
    node_failure_event_handled_at = some now;
    affected_workloads = affected;
    last_handled_operation_id =
        if str_eq latest.spec.operation_id ""
        then latest.status.last_handled_operation_id
        else latest.spec.operation_id;
    pending_startup_resume = true;
    resume_delay_started_at = some now;
    conditions = conditions;
  };
}

-- The policy is degraded where workloads were affected.
unfoldable pub mark_failure_handled :
    {W : Type 0} → Client W → ℕ → List String → Policy → Action W (Unit {0})
unfolding with_failure_scaled
mark_failure_handled c now [] latest =
    c.patch_status latest (with_failure_scaled now [] latest.status.conditions latest)
mark_failure_handled c now (name ∷ names) latest = do
  time ← clock c
  c.patch_status latest (
      with_failure_scaled now (name ∷ names)
        (set_degraded_condition time latest.status.failed_node_name (name ∷ names)
          latest.status.conditions)
        latest)

unfoldable pub handle_failure : {W : Type 0} → Client W → Policy → Action W Stage
unfolding mark_failure_handled
handle_failure c policy = do
  affected ← handle_node_failure_event c policy
  now ← clock c
  c.retry_on_conflict (do
    latest ← c.get_policy policy.namespace policy.name
    mark_failure_handled c now affected latest)
  pure (answer requeue)

unfoldable pub failure_stage : {W : Type 0} → Client W → Policy → Action W Stage
unfolding is_failure_active handle_failure
failure_stage c policy =
    if is_failure_active policy then handle_failure c policy else pure (fall_through policy)

abbrev pub not_ready : KubeCondition → Bool
not_ready c = str_eq c.type "Ready" && not (is_true c.status)

-- The named node is listed with a Ready condition that is not true.
unfoldable pub is_still_failed : String → Result (List Node) → Bool
is_still_failed name (err e) = false
is_still_failed name (ok nodes) = any (λ n. str_eq n.name name && any not_ready n.conditions) nodes

unfoldable pub with_node_recovered : Policy → Policy
with_node_recovered latest = record latest {
  status = record latest.status { failed_node_name = "" };
}

unfoldable pub recovered : {W : Type 0} → Client W → Policy → Action W Stage
unfolding with_node_recovered
recovered c policy = do
  effect (logged (patch_latest c policy with_node_recovered))
  again ← c.get_policy policy.namespace policy.name
  pure (fall_through again)

unfoldable pub keep_cleaning : {W : Type 0} → Client W → Policy → Bool → Action W Stage
unfolding recovered
keep_cleaning c policy true = do
  effect (force_delete_terminating_pods c policy policy.status.failed_node_name)
  pure (answer (requeue_after (seconds 30)))
keep_cleaning c policy false = recovered c policy

unfoldable pub clean_up : {W : Type 0} → Client W → Policy → Action W Stage
unfolding is_still_failed keep_cleaning
clean_up c policy w =
    let (nodes, w₁) = c.list_nodes none w in
    keep_cleaning c policy (is_still_failed policy.status.failed_node_name nodes) w₁

-- A manual operation that is due goes before the cleaning.
unfoldable pub cleanup_stage : {W : Type 0} → Client W → Policy → Action W Stage
unfolding clean_up
cleanup_stage c policy =
    if policy.spec.handle_node_failure && not (str_eq policy.status.failed_node_name "")
    then (if should_skip_operation policy then clean_up c policy else pure (fall_through policy))
    else pure (fall_through policy)

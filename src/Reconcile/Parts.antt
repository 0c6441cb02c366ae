-- ===== src/Reconcile/Parts.antt =====
-- What the parts of `Reconcile` share: the reconciler with what it calls, the answers, and the steps
-- that several branches take (internal/controller/namespacelifecyclepolicy_controller.go).
use app_lifecycle_kubernetes.Base.{
  ℕ, ◌*◌, String, Bool, true, false, ◌&&◌, Option, none, some, List, [], ◌∷◌, Action, Result, ok,
  err, Error, panicked, pure, logged, ◌>>=◌, ◌>>◌, ltb, length, str_eq, if◌then◌else◌,
}
use app_lifecycle_kubernetes.Base.Decimal.{number}
use app_lifecycle_kubernetes.Base.Text.{◌+++◌}
use app_lifecycle_kubernetes.Types.{Policy, AdaptiveThrottlingConfig}
use app_lifecycle_kubernetes.Kube.{Workload}
use app_lifecycle_kubernetes.Client.{Client, describe}
use app_lifecycle_kubernetes.Progress.{patch_latest}
use app_lifecycle_kubernetes.Workloads.{
  freeze_deployment, freeze_stateful_set, resume_deployment, resume_stateful_set,
}
use app_lifecycle_kubernetes.Signals.Collect.{NodeMetricsCache, Scrape}
use app_lifecycle_kubernetes.PreConditions.{Http}
use app_lifecycle_kubernetes.PreConditions.Wait.{Select}
use app_lifecycle_kubernetes.Throttle.Resume.{all_workloads, resume_with_adaptive_throttling}
use app_lifecycle_kubernetes.Throttle.Wired.{operator_services}

-- `NamespaceLifecyclePolicyReconciler`. Its cache of node metrics and its flag `startupComplete` are
-- part of the world. The last three bound the waits and the loop of a throttled resume.
pub record Operator (W : Type 0) : Type 0 where
  pub client : Client W
  pub http : Http W
  pub select : Select W
  pub scrape : Scrape W
  pub startup_complete : W → Bool
  pub metrics_cache : W → NodeMetricsCache
  pub with_metrics_cache : NodeMetricsCache → W → W
  pub wait_fuel : ℕ
  pub clear_fuel : ℕ
  pub resume_fuel : ℕ

-- `ctrl.Result`: nothing more, again at once, or again after some nanoseconds.
pub data Requeue : Type 0 where
  finished requeue : Requeue
  requeue_after : ℕ → Requeue

-- A part of `Reconcile` returns, or falls through with the policy as it then is.
pub data Stage : Type 0 where
  answer : Requeue → Stage
  fall_through : Policy → Stage

abbrev pub continue : {W : Type 0} → Stage → (Policy → Action W Requeue) → Action W Requeue
continue (answer r) next = pure r
continue (fall_through p) next = next p

abbrev pub seconds : ℕ → ℕ
seconds n = n * 1000000000

-- `metav1.Now()`
abbrev pub clock : {W : Type 0} → Client W → Action W ℕ
clock c w = let (now, w₁) = c.now w in (ok now, w₁)

-- What cannot fail, as an action.
abbrev pub effect : {W : Type 0} → (W → W) → Action W (Unit {0})
effect f w = (ok tt, f w)

-- The policy is read again, and its status is replaced (`Status().Update`).
unfoldable pub update_latest :
    {W : Type 0} → Client W → Policy → (Policy → Policy) → Action W (Unit {0})
update_latest c policy change =
    c.retry_on_conflict
      (do latest ← c.get_policy policy.namespace policy.name; c.update_status (change latest))

-- A pending operation is cancelled, and the policy is read again for what follows. The policy bears
-- the name of the request.
unfoldable pub cancel_pending :
    {W : Type 0} → Client W → Policy → (Policy → Policy) → Action W Stage
unfolding patch_latest
cancel_pending c policy change = do
  patch_latest c policy change
  again ← c.get_policy policy.namespace policy.name
  pure (fall_through again)

-- The selected Deployments and StatefulSets.
unfoldable pub list_workloads :
    {W : Type 0} → Client W → Policy → Action W (List Workload × List Workload)
list_workloads c policy = do
  deployments ← c.deployments.list policy.spec.target_namespace policy.spec.selector
  stateful_sets ← c.stateful_sets.list policy.spec.target_namespace policy.spec.selector
  pure (deployments, stateful_sets)

-- A loop whose errors are only logged.
unfoldable pub for_each : {W : Type 0} → (Workload → Action W (Unit {0})) → List Workload → W → W
for_each act [] w = w
for_each act (x ∷ rest) w = for_each act rest (logged (act x) w)

unfoldable pub freeze_all : {W : Type 0} → Client W → Policy → List Workload × List Workload → W → W
unfolding for_each
freeze_all c policy (deployments, stateful_sets) w =
    for_each (λ s. freeze_stateful_set c s (some policy)) stateful_sets
      (for_each (λ d. freeze_deployment c d (some policy)) deployments w)

unfoldable pub resume_all : {W : Type 0} → Client W → List Workload × List Workload → W → W
unfolding for_each
resume_all c (deployments, stateful_sets) w =
    for_each (resume_stateful_set c) stateful_sets (for_each (resume_deployment c) deployments w)

-- `(%d deployments, %d statefulsets)`
abbrev pub counts_text : List Workload × List Workload → String
counts_text found =
    "("
    +++ (number (length found.0)
        +++ (" deployments, " +++ (number (length found.1) +++ " statefulsets)")))

abbrev pub enabled_throttling : Option AdaptiveThrottlingConfig → Option AdaptiveThrottlingConfig
enabled_throttling none = none
enabled_throttling (some config) = if config.enabled then some config else none

-- The loop on too little fuel counts as a fault of the program.
abbrev pub put_cache :
    {W : Type 0}
    → Operator W
    → W
    → Option (Result (Unit {0}) × (NodeMetricsCache × W))
    → Result (Unit {0}) × W
put_cache op w none = (err (panicked "out of fuel"), w)
put_cache op w (some (r, (cache, w₁))) = (r, op.with_metrics_cache cache w₁)

-- `resumeWithAdaptiveThrottling`, called with the reconciler's cache.
unfoldable pub resume_throttled :
    {W : Type 0}
    → Operator W
    → Policy
    → Bool
    → List Workload × List Workload
    → AdaptiveThrottlingConfig
    → Action W (Unit {0})
resume_throttled op policy is_startup found config w =
    let (start, w₁) = op.client.now w in
    put_cache op w₁ (
      resume_with_adaptive_throttling
        (operator_services op.client op.scrape policy config is_startup start op.clear_fuel) config
        (all_workloads found.0 found.1) op.resume_fuel (op.metrics_cache w₁, w₁))

abbrev pub is_aborted : {W : Type 0} → Client W → Error → Bool
is_aborted c e = str_eq (describe c e) "operation aborted due to manual override"

-- A startup resume: throttled where that is enabled, or all at once with errors logged.
unfoldable pub resume_at_startup :
    {W : Type 0}
    → Operator W
    → Policy
    → List Workload × List Workload
    → Option AdaptiveThrottlingConfig
    → Action W (Unit {0})
unfolding resume_all resume_throttled
resume_at_startup op policy found none = effect (resume_all op.client found)
resume_at_startup op policy found (some config) = resume_throttled op policy true found config

-- An event is there, and is newer than what was handled last.
abbrev pub is_newer : Option ℕ → Option ℕ → Bool
is_newer none handled = false
is_newer (some detected) none = true
is_newer (some detected) (some handled) = ltb handled detected

-- `NodeFailureEventDetectedAt` is newer than `NodeFailureEventHandledAt`, and the policy handles it.
unfoldable pub is_failure_active : Policy → Bool
is_failure_active policy =
    policy.spec.handle_node_failure
    && is_newer policy.status.node_failure_event_detected_at
        policy.status.node_failure_event_handled_at

abbrev pub is_empty : List Workload → Bool
is_empty [] = true
is_empty (x ∷ rest) = false

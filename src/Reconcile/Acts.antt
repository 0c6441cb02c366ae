-- ===== src/Reconcile/Acts.antt =====
-- The freeze and the resume of a manual operation in `Reconcile`
-- (internal/controller/namespacelifecyclepolicy_controller.go).
use app_lifecycle_kubernetes.Base.{
  ℕ, String, false, Option, none, some, List, [], ◌∷◌, Action, Result, ok, err, Error, pure, throw,
  logged, ◌>>=◌, ◌>>◌, length, if◌then◌else◌,
}
use app_lifecycle_kubernetes.Base.Text.{◌+++◌}
use app_lifecycle_kubernetes.Types.{Policy, Phase, AdaptiveThrottlingConfig}
use app_lifecycle_kubernetes.Kube.{Workload}
use app_lifecycle_kubernetes.Client.{Client, describe}
use app_lifecycle_kubernetes.Progress.{update_status}
use app_lifecycle_kubernetes.Workloads.{
  freeze_deployment, freeze_stateful_set, resume_deployment, resume_stateful_set,
}
use app_lifecycle_kubernetes.PreConditions.Wait.{}
use app_lifecycle_kubernetes.Base.Decimal.{number}
use app_lifecycle_kubernetes.Reconcile.Parts.{
  Operator, Requeue, finished, clock, effect, update_latest, is_aborted, resume_throttled,
}

-- `updateStatus` for a manual operation with its error logged.
unfoldable pub report_phase : {W : Type 0} → Client W → Policy → Phase → String → W → W
report_phase c policy phase text w = logged (update_status c policy phase text false) w

-- The status says that the operation failed, and the error is returned.
unfoldable pub fail_with : {W : Type 0} → Client W → Policy → String → Error → Action W Requeue
unfolding report_phase
fail_with c policy text e = do
  effect (report_phase c policy Phase.failed (text +++ (": " +++ describe c e)))
  throw e

-- A call whose error ends the operation.
abbrev pub or_fail :
    {W A : Type 0}
    → Client W
    → Policy
    → String
    → Result A × W
    → (A → Action W Requeue)
    → Result Requeue × W
or_fail c policy text (ok a, w) next = next a w
or_fail c policy text (err e, w) next = fail_with c policy text e w

-- The loop over one kind of workloads, which ends with the operation at the first error.
unfoldable pub each_or_fail :
    {W : Type 0}
    → Client W
    → Policy
    → String
    → (Workload → Action W (Unit {0}))
    → List Workload
    → Action W Requeue
    → Action W Requeue
unfolding fail_with
each_or_fail c policy text act [] next w = next w
each_or_fail c policy text act (x ∷ rest) next w =
    or_fail c policy (text +++ x.name) (act x w) (λ done. each_or_fail c policy text act rest next)

unfoldable pub freeze_now :
    {W : Type 0} → Client W → Policy → List Workload × List Workload → Action W Requeue
unfolding each_or_fail
freeze_now c policy (deployments, stateful_sets) =
    each_or_fail c policy "Failed to freeze deployment " (λ d. freeze_deployment c d (some policy))
      deployments
      (each_or_fail c policy "Failed to freeze statefulset "
        (λ s. freeze_stateful_set c s (some policy)) stateful_sets
        (do
          update_status c policy Phase.frozen
              ("Successfully froze "
                +++ (number (length deployments)
                    +++ (" deployments and "
                        +++ (number (length stateful_sets) +++ " statefulsets"))))
              false
          pure finished))

-- The end of a resume. The progress is cleared, and the operation counts as handled.
unfoldable pub with_manual_resume : Policy → String → ℕ → Policy → Policy
with_manual_resume policy text now latest = record latest {
  status = record latest.status {
    phase = Phase.resumed;
    message = text;
    last_handled_operation_id = policy.spec.operation_id;
    last_resume_at = some now;
    adaptive_progress = none;
  };
}

unfoldable pub finish_manual_resume :
    {W : Type 0} → Client W → Policy → List Workload × List Workload → Action W Requeue
unfolding update_latest with_manual_resume
finish_manual_resume c policy found = do
  now ← clock c
  update_latest c policy (
      with_manual_resume policy
        ("Successfully resumed "
          +++ (number (length found.0)
              +++ (" deployments and " +++ (number (length found.1) +++ " statefulsets"))))
        now)
  pure finished

-- What the throttled resume leads to.
unfoldable pub after_throttled :
    {W : Type 0}
    → Client W
    → Policy
    → List Workload × List Workload
    → Result (Unit {0})
    → Action W Requeue
unfolding finish_manual_resume fail_with
after_throttled c policy found (ok _) = finish_manual_resume c policy found
after_throttled c policy found (err e) =
    if is_aborted c e then pure finished else fail_with c policy "Failed to resume" e

unfoldable pub resume_now :
    {W : Type 0}
    → Operator W
    → Policy
    → List Workload × List Workload
    → Option AdaptiveThrottlingConfig
    → Action W Requeue
unfolding resume_throttled after_throttled each_or_fail finish_manual_resume
resume_now op policy found (some config) w =
    let (done, w₁) = resume_throttled op policy false found config w in
    after_throttled op.client policy found done w₁
resume_now op policy found none w =
    each_or_fail op.client policy "Failed to resume deployment " (resume_deployment op.client)
      found.0
      (each_or_fail op.client policy "Failed to resume statefulset " (resume_stateful_set op.client)
        found.1 (finish_manual_resume op.client policy found))
      w

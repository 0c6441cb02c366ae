-- ===== src/Workloads.antt =====
-- Freezing and resuming one Deployment or StatefulSet: `freezeDeployment`, `freezeStatefulSet`,
-- `resumeDeployment`, `resumeStatefulSet`, `filterWorkloadsRequiringResume` and the rolling restarts
-- of internal/controller/namespacelifecyclepolicy_controller.go. The two kinds have the same code on
-- different objects, so each pair shares the body of its retried function.
pub mod RoundTrip
pub mod Store
pub mod Balance
pub mod Quiet
pub mod Restored
use app_lifecycle_kubernetes.Base.{
  ℕ, String, Bool, true, false, Option, none, some, List, Action, pure, throw, ◌>>=◌, ◌>>◌, message,
  str_eq, is_some, keep, if◌then◌else◌,
}
use app_lifecycle_kubernetes.Base.Int.{ℤ, pos, is_zero, to_int32}
use app_lifecycle_kubernetes.Base.Dict.{lookup, insert, remove, Dict}
use app_lifecycle_kubernetes.Base.Decimal.{itoa, atoi}
use app_lifecycle_kubernetes.Types.{Policy, TerminationGracePeriodConfig}
use app_lifecycle_kubernetes.Kube.{Workload}
use app_lifecycle_kubernetes.Client.{Client, Objects}

abbrev pub annotation_original_replicas : String
annotation_original_replicas = "apps.ops.dev/original-replicas"

abbrev pub annotation_original_grace : String
annotation_original_grace = "apps.ops.dev/original-termination-grace-period"

abbrev pub nil_annotation_value : String
nil_annotation_value = "nil"

-- `Spec.Replicas != nil && *Spec.Replicas == 0`
abbrev pub has_zero_replicas : Option ℤ → Bool
has_zero_replicas none = false
has_zero_replicas (some n) = is_zero n

-- The default of Kubernetes for an absent replica count.
abbrev pub original_replicas : Option ℤ → ℤ
original_replicas none = pos 1
original_replicas (some n) = n

-- What is noted about a grace period before it is overridden.
abbrev pub grace_note : Option ℤ → String
grace_note none = nil_annotation_value
grace_note (some n) = itoa n

abbrev pub override_notes : Option ℕ → Option ℤ → Dict String → Dict String
override_notes none grace notes = notes
override_notes (some seconds) grace notes =
    insert annotation_original_grace (grace_note grace) notes

abbrev pub override_grace : Option ℕ → Option ℤ → Option ℤ
override_grace none grace = grace
override_grace (some seconds) grace = some (pos seconds)

-- The object as the freeze writes it.
unfoldable pub frozen_form : Option ℕ → Workload → Workload
frozen_form override latest =
    let noted =
      insert annotation_original_replicas (itoa (original_replicas latest.replicas))
        latest.annotations in
    record latest {
      annotations = override_notes override latest.grace_period noted;
      grace_period = override_grace override latest.grace_period;
      replicas = some (pos 0);
    }

-- The function that `RetryOnConflict` runs in a freeze.
unfoldable pub freeze_once :
    {W : Type 0} → Objects W Workload → Option ℕ → Workload → Action W (Unit {0})
unfolding frozen_form
freeze_once objects override workload = do
  latest ← objects.get workload.namespace workload.name
  if has_zero_replicas latest.replicas
      then pure tt
      else objects.patch latest (frozen_form override latest)

-- The overrides of a policy, which may be nil.
abbrev deployment_field : Option TerminationGracePeriodConfig → Option ℕ
deployment_field none = none
deployment_field (some config) = config.deployment

abbrev stateful_set_field : Option TerminationGracePeriodConfig → Option ℕ
stateful_set_field none = none
stateful_set_field (some config) = config.stateful_set

abbrev pub deployment_override : Option Policy → Option ℕ
deployment_override none = none
deployment_override (some policy) = deployment_field policy.spec.termination_grace_period_seconds

abbrev pub stateful_set_override : Option Policy → Option ℕ
stateful_set_override none = none
stateful_set_override (some policy) =
    stateful_set_field policy.spec.termination_grace_period_seconds

unfoldable pub freeze_deployment :
    {W : Type 0} → Client W → Workload → Option Policy → Action W (Unit {0})
freeze_deployment c deployment policy =
    c.retry_on_conflict (freeze_once c.deployments (deployment_override policy) deployment)

unfoldable pub freeze_stateful_set :
    {W : Type 0} → Client W → Workload → Option Policy → Action W (Unit {0})
freeze_stateful_set c sts policy =
    c.retry_on_conflict (freeze_once c.stateful_sets (stateful_set_override policy) sts)

-- The grace period after the note about it is read: kept if the note is no number.
abbrev read_grace : Option ℤ → Option ℤ → Option ℤ
read_grace none grace = grace
read_grace (some n) grace = some n

abbrev pub restored_grace : Option String → Option ℤ → Option ℤ
restored_grace none grace = grace
restored_grace (some note) grace =
    if str_eq note nil_annotation_value then none else read_grace (atoi note) grace

abbrev pub without_grace_note : Option String → Dict String → Dict String
without_grace_note none notes = notes
without_grace_note (some note) notes = remove annotation_original_grace notes

-- The object as the resume writes it, with the count that was read from the listed object.
unfoldable pub restored_form : ℤ → Workload → Workload
restored_form count latest =
    let note = lookup annotation_original_grace latest.annotations in
    record latest {
      replicas = some (to_int32 count);
      grace_period = restored_grace note latest.grace_period;
      annotations =
          remove annotation_original_replicas (without_grace_note note latest.annotations);
    }

-- The function that `RetryOnConflict` runs in a resume.
unfoldable pub resume_once : {W : Type 0} → Objects W Workload → ℤ → Workload → Action W (Unit {0})
unfolding restored_form
resume_once objects count workload = do
  latest ← objects.get workload.namespace workload.name
  if is_some (lookup annotation_original_replicas latest.annotations)
      then objects.patch latest (restored_form count latest)
      else pure tt

-- The noted count as `Atoi` reads it; an error of its own if the note is no number.
unfoldable pub resume_counted :
    {W : Type 0} → Client W → Objects W Workload → Option ℤ → Workload → Action W (Unit {0})
resume_counted c objects none workload =
    throw (message "strconv.Atoi: invalid syntax or value out of range")
resume_counted c objects (some count) workload =
    c.retry_on_conflict (resume_once objects count workload)

unfoldable pub resume_noted :
    {W : Type 0} → Client W → Objects W Workload → Option String → Workload → Action W (Unit {0})
unfolding resume_counted
resume_noted c objects none workload = pure tt
resume_noted c objects (some note) workload = resume_counted c objects (atoi note) workload

unfoldable pub resume_deployment : {W : Type 0} → Client W → Workload → Action W (Unit {0})
unfolding resume_noted
resume_deployment c deployment =
    resume_noted c c.deployments (lookup annotation_original_replicas deployment.annotations)
      deployment

unfoldable pub resume_stateful_set : {W : Type 0} → Client W → Workload → Action W (Unit {0})
unfolding resume_noted
resume_stateful_set c sts =
    resume_noted c c.stateful_sets (lookup annotation_original_replicas sts.annotations) sts

abbrev has_replicas_note : Workload → Bool
has_replicas_note w = is_some (lookup annotation_original_replicas w.annotations)

unfoldable pub filter_workloads_requiring_resume :
    List Workload → List Workload → List Workload × List Workload
filter_workloads_requiring_resume deployments stateful_sets =
    (keep has_replicas_note deployments, keep has_replicas_note stateful_sets)

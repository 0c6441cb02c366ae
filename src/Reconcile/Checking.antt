-- ===== src/Reconcile/Checking.antt =====
-- A startup resume whose pre-conditions are being checked: the branch of `Reconcile` for
-- `PreConditionsStatus.Checking` (internal/controller/namespacelifecyclepolicy_controller.go).
use app_lifecycle_kubernetes.Base.{
  ℕ, String, Bool, true, false, Option, none, some, List, Action, Result, ok, err, pure, throw,
  logged, ◌>>=◌, ◌>>◌, default_if_zero, if◌then◌else◌,
}
use app_lifecycle_kubernetes.Base.Text.{◌+++◌}
use app_lifecycle_kubernetes.Types.{Policy, Phase, PreConditionsConfig, PreConditionsStatus}
use app_lifecycle_kubernetes.Kube.{Workload}
use app_lifecycle_kubernetes.Client.{Client, describe}
use app_lifecycle_kubernetes.Override.{is_checking}
use app_lifecycle_kubernetes.PreConditions.{check_pre_conditions}
use app_lifecycle_kubernetes.PreConditions.Wait.{checked_status}
use app_lifecycle_kubernetes.Reconcile.Parts.{
  Operator, Stage, answer, fall_through, finished, requeue_after, seconds, clock, effect,
  list_workloads, counts_text, enabled_throttling, is_aborted, resume_at_startup,
}

abbrev or_empty : Option PreConditionsStatus → PreConditionsStatus
or_empty none = record { checking = false; last_checked_at = none; passed = false; message = "" }
or_empty (some status) = status

unfoldable pub with_check_note : ℕ → String → Policy → Policy
with_check_note now text latest = record latest {
  status = record latest.status {
    pre_conditions_status = some (record (or_empty latest.status.pre_conditions_status) {
      last_checked_at = some now;
      message = text;
    });
  };
}

abbrev passed_note : ℕ → Option PreConditionsStatus → Option PreConditionsStatus
passed_note now none = none
passed_note now (some status) = some (checked_status false now true "All pre-conditions passed")

unfoldable pub with_checked_resume : String → ℕ → Policy → Policy
with_checked_resume text now latest = record latest {
  status = record latest.status {
    phase = Phase.resumed;
    message = text;
    last_resume_at = some now;
    pre_conditions_status = passed_note now latest.status.pre_conditions_status;
    pending_startup_resume = false;
  };
}

-- The policy is read again, the clock after it, and the status is replaced.
unfoldable pub update_at :
    {W : Type 0} → Client W → Policy → (ℕ → Policy → Policy) → Action W (Unit {0})
update_at c policy change = c.retry_on_conflict (do
  latest ← c.get_policy policy.namespace policy.name
  now ← clock c
  c.update_status (change now latest))

-- `CheckInterval` with its default, 5 seconds, in seconds.
abbrev pub interval_or_default : Option PreConditionsConfig → ℕ
interval_or_default none = 5
interval_or_default (some config) = default_if_zero 5 config.check_interval

unfoldable pub note_and_wait : {W : Type 0} → Client W → Policy → String → Action W Stage
unfolding update_at with_check_note
note_and_wait c policy text = do
  effect (logged (update_at c policy (λ now. with_check_note now text)))
  pure (answer (requeue_after (seconds (interval_or_default policy.spec.pre_conditions))))

unfoldable pub after_checked_resume :
    {W : Type 0}
    → Client W
    → Policy
    → List Workload × List Workload
    → Result (Unit {0})
    → Action W Stage
unfolding update_at with_checked_resume
after_checked_resume c policy found (err e) =
    if is_aborted c e then pure (answer finished) else throw e
after_checked_resume c policy found (ok _) = do
  update_at c policy (
      with_checked_resume
        ("Successfully resumed after pre-conditions passed " +++ counts_text found))
  pure (answer finished)

unfoldable pub run_checked_resume :
    {W : Type 0} → Operator W → Policy → List Workload × List Workload → Action W Stage
unfolding resume_at_startup after_checked_resume
run_checked_resume op policy found w =
    let (done, w₁) =
      resume_at_startup op policy found (enabled_throttling policy.spec.adaptive_throttling) w in
    after_checked_resume op.client policy found done w₁

-- What the check leads to. The copy at hand of the check's status and of the pending flag is changed
-- as well, which nothing reads.
unfoldable pub after_checking :
    {W : Type 0} → Operator W → Policy → Result (Bool × String) → Action W Stage
unfolding note_and_wait list_workloads run_checked_resume
after_checking op policy (err e) =
    note_and_wait op.client policy ("Error: " +++ describe op.client e)
after_checking op policy (ok (false, text)) = note_and_wait op.client policy text
after_checking op policy (ok (true, text)) = do
  now ← clock op.client
  found ← list_workloads op.client policy
  run_checked_resume op policy found

unfoldable pub checking_stage : {W : Type 0} → Operator W → Policy → Action W Stage
unfolding after_checking
checking_stage op policy w =
    let (checked, w₁) = check_pre_conditions op.client op.http policy w in
    if is_checking policy.status.pre_conditions_status
    then after_checking op policy checked w₁
    else pure (fall_through policy) w

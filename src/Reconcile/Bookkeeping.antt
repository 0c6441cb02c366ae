-- ===== src/Reconcile/Bookkeeping.antt =====
-- What the status writes of `Reconcile` mean for the runs that follow.
use app_lifecycle_kubernetes.Base.{
  ℕ, ◌≤◌, String, true, false, List, Result, ok, err, not_found, some, ◌≡◌, ◌≢◌, refl, arith,
  str_eq_iff, ◌∙◌, conflict,
}
use app_lifecycle_kubernetes.Types.{
  Policy, Phase, Condition, PreConditionsStatus, PreConditionsConfig,
}
use app_lifecycle_kubernetes.PreConditions.Wait.{checked_status}
use app_lifecycle_kubernetes.Client.{Client, RetryLaws, retried}
use app_lifecycle_kubernetes.Override.{is_checking, should_skip_operation}
use app_lifecycle_kubernetes.Progress.{with_status}
use app_lifecycle_kubernetes.Progress.Writes.{
  patch_latest_lem, update_status_lem, with_status-handled,
}
use app_lifecycle_kubernetes.Reconcile.Parts.{
  Operator, answer, fall_through, finished, is_failure_active, cancel_pending, requeue_after,
  seconds, update_latest,
}
use app_lifecycle_kubernetes.Reconcile.Freezing.{with_freeze_cancelled, pending_freeze_stage}
use app_lifecycle_kubernetes.Reconcile.Resuming.{
  is_unhandled, with_held_status, with_waiting, hold_resume,
}
use app_lifecycle_kubernetes.Reconcile.Failing.{with_failure_scaled}
use app_lifecycle_kubernetes.Reconcile.Skipping.{missing_text, namespace_stage, on_namespace}
use app_lifecycle_kubernetes.Reconcile.Manual.{phase_under_way, list_then_act, run_operation}

update_latest_lem :
    {W : Type 0} (c : Client W)
    → RetryLaws c
    → (policy latest : Policy) (change : Policy → Policy) (w v u : W) → {answer : Result (Unit {0})}
    → c.get_policy policy.namespace policy.name w ≡ (ok latest, v)
    → c.update_status (change latest) v ≡ (answer, u)
    → answer ≢ err conflict
    → update_latest c policy change w ≡ (answer, u)
unfolding update_latest
update_latest_lem c laws policy latest change w v u got written settled =
    retried laws _ w (rw got written) settled

held_failure :
    (policy latest : Policy) (status : PreConditionsStatus) (text : String)
    → latest.spec.handle_node_failure ≡ policy.spec.handle_node_failure
    → is_failure_active (with_held_status (with_waiting status text policy) latest)
      ≡ is_failure_active policy
unfolding with_held_status with_waiting is_failure_active
held_failure policy latest status text same = rw same refl

-- A manual operation is marked as handled before any workload is listed or changed: what follows the
-- first status write runs in a world where the status just written has the operation skipped, whether
-- that ends well or not. It holds where the write succeeds, the operation has an id that the policy as
-- it is read again still asks for, and no pre-conditions are being checked.
pub run_operation-marked :
    {W : Type 0} (op : Operator W) (laws : RetryLaws op.client) (policy latest : Policy) (w v u : W)
    → op.client.get_policy policy.namespace policy.name w ≡ (ok latest, v)
    → op.client.patch_status latest
        (with_status policy (phase_under_way policy.spec.action) "Processing request" false latest)
        v
      ≡ (ok tt, u)
    → latest.spec.operation_id ≡ policy.spec.operation_id
    → policy.spec.operation_id ≢ ""
    → is_checking latest.status.pre_conditions_status ≡ false
    → (run_operation op policy w ≡ list_then_act op policy u)
      × (should_skip_operation (
            with_status policy
              (phase_under_way policy.spec.action)
              "Processing request"
              false
              latest)
          ≡ true)
unfolding run_operation
run_operation-marked op laws policy latest w v u got patched same named idle = (
  rw (update_status_lem op.client laws policy latest _ _ false w v u got patched (λ e. cc e)) refl,
  (with_status-handled policy latest _ "Processing request" false same named idle).0,
)

-- A namespace that is not there ends the run without an error, and the status that is written has the
-- operation skipped from then on, so that it does not run when the namespace is there. The conditions
-- are those of an operation that is marked.
pub namespace_stage-missing :
    {W : Type 0} (c : Client W) (laws : RetryLaws c) (policy latest : Policy) (w z v u : W)
    → c.get_namespace policy.spec.target_namespace w ≡ (err not_found, z)
    → c.get_policy policy.namespace policy.name z ≡ (ok latest, v)
    → c.patch_status latest (with_status policy Phase.failed (missing_text policy) false latest) v
      ≡ (ok tt, u)
    → latest.spec.operation_id ≡ policy.spec.operation_id
    → policy.spec.operation_id ≢ ""
    → is_checking latest.status.pre_conditions_status ≡ false
    → (namespace_stage c policy w ≡ (ok (answer finished), u))
      × (should_skip_operation (with_status policy Phase.failed (missing_text policy) false latest)
          ≡ true)
unfolding namespace_stage on_namespace
namespace_stage-missing c laws policy latest w z v u missing got patched same named idle = (
  rw (missing, update_status_lem c laws policy latest _ _ false z v u got patched (λ e. cc e)) refl,
  (with_status-handled policy latest _ (missing_text policy) false same named idle).0,
)

unnamed_is_due :
    (policy : Policy) → policy.spec.operation_id ≡ "" → should_skip_operation policy ≡ false
unfolding should_skip_operation
unnamed_is_due policy unnamed = simp unnamed refl

-- A delayed startup freeze of a policy without an operation id is cancelled as if a manual operation
-- were pending, whatever its delay: the flag is cleared, and the policy that is read then falls through.
pub pending_freeze-unnamed :
    {W : Type 0} (c : Client W) (laws : RetryLaws c) (policy latest again : Policy) (w v u z : W)
    → policy.status.pending_freeze ≡ true
    → policy.spec.operation_id ≡ ""
    → c.get_policy policy.namespace policy.name w ≡ (ok latest, v)
    → c.patch_status latest (with_freeze_cancelled latest) v ≡ (ok tt, u)
    → c.get_policy policy.namespace policy.name u ≡ (ok again, z)
    → (pending_freeze_stage c policy w ≡ (ok (fall_through again), z))
      × ((with_freeze_cancelled latest).status.pending_freeze ≡ false)
unfolding pending_freeze_stage cancel_pending
pending_freeze-unnamed c laws policy latest again w v u z pending unnamed got patched reread = (
  simp (pending, unnamed_is_due policy unnamed)
      (rw
        (
          patch_latest_lem c laws policy latest with_freeze_cancelled w v u got patched (λ e. cc e),
          reread,
        )
        refl),
  unfold with_freeze_cancelled in refl,
)

-- After a node failure was handled, the resume that is pending is cancelled neither by that failure nor
-- by an operation: the failure is no longer active where it was detected no later than it was handled,
-- and an operation that the policy asks for counts as handled.
pub with_failure_scaled-resumes :
    (now : ℕ) (affected : List String) (conditions : List Condition) (latest : Policy) (at : ℕ)
    → latest.status.node_failure_event_detected_at ≡ some at
    → at ≤ now
    → let after = with_failure_scaled now affected conditions latest in
      (after.status.pending_startup_resume ≡ true)
      × (is_failure_active after ≡ false)
      × (is_unhandled after ≡ false)
unfolding with_failure_scaled is_failure_active
with_failure_scaled-resumes now affected conditions latest at detected before = ground (
  arith,
  detected,
  str_eq_iff latest.spec.operation_id "",
  str_eq_iff latest.spec.operation_id latest.spec.operation_id,
)

-- While the pre-conditions of a startup resume do not hold, the status at hand goes over the latest one:
-- a node failure that was recorded since the policy was read is erased by the write, where the policy as
-- it was read had none active and the two ask for the same handling.
pub hold_resume-loses :
    {W : Type 0} (c : Client W) (laws : RetryLaws c) (policy latest : Policy)
    (config : PreConditionsConfig) (text status_text : String) (w t v u : W) (now : ℕ)
    → c.now w ≡ (now, t)
    → c.get_policy policy.namespace policy.name t ≡ (ok latest, v)
    → let after =
        with_held_status
          (with_waiting (checked_status true now false text) status_text policy)
          latest in
      c.update_status after v ≡ (ok tt, u)
      → latest.spec.handle_node_failure ≡ policy.spec.handle_node_failure
      → is_failure_active policy ≡ false
      → is_failure_active latest ≡ true
      → (hold_resume c policy config text status_text w
          ≡ (ok (answer (requeue_after (seconds config.check_interval))), u))
        × (is_failure_active after ≡ false)
unfolding hold_resume
hold_resume-loses c laws policy latest config text status_text w t v u now clock got written same
      calm active =
    (
      rw (clock, update_latest_lem c laws policy latest _ t v u got written (λ e. cc e)) refl,
      held_failure policy latest _ status_text same ∙ calm,
    )

-- ===== src/Progress/Writes.antt =====
-- What the status writes mean for the operations that read the status.
use app_lifecycle_kubernetes.Base.{
  String, Bool, true, false, ◌≡◌, ◌≢◌, refl, arith, str_eq_iff, ok, err, conflict, Result,
}
use app_lifecycle_kubernetes.Types.{Policy, Phase}
use app_lifecycle_kubernetes.Client.{Client, RetryLaws, retried}
use app_lifecycle_kubernetes.Override.{is_checking, should_skip_operation, is_manual_pending}
use app_lifecycle_kubernetes.Progress.{patch_latest, with_status, update_status}

-- The status that a manual operation leaves marks the operation as handled: it is skipped from then on,
-- unless its pre-conditions are being checked, and no manual command is pending, so that no resume is
-- stopped by it unless the action is Freeze. It holds where the operation has an id and the policy
-- still asks for it.
pub with_status-handled :
    (policy latest : Policy) (phase : Phase) (message : String) (is_startup : Bool)
    → latest.spec.operation_id ≡ policy.spec.operation_id
    → policy.spec.operation_id ≢ ""
    → is_checking latest.status.pre_conditions_status ≡ false
    → let after = with_status policy phase message false latest in
      (should_skip_operation after ≡ true) × (is_manual_pending after is_startup ≡ false)
unfolding with_status should_skip_operation is_manual_pending
with_status-handled policy latest phase message is_startup same named checked = ground (
  arith,
  str_eq_iff policy.spec.operation_id latest.spec.operation_id,
  str_eq_iff policy.spec.operation_id "",
  str_eq_iff latest.spec.operation_id "",
)

-- A status written for a startup operation leaves open whether a manual operation is due: what is
-- skipped, and what is pending, is the same before and after.
pub with_status-startup :
    (policy latest : Policy) (phase : Phase) (message : String) (is_startup : Bool)
    → let after = with_status policy phase message true latest in
      (should_skip_operation after ≡ should_skip_operation latest)
      × (is_manual_pending after is_startup ≡ is_manual_pending latest is_startup)
unfolding with_status should_skip_operation is_manual_pending
with_status-startup policy latest phase message is_startup = (refl, refl)

pub patch_latest_lem :
    {W : Type 0} (c : Client W)
    → RetryLaws c
    → (policy latest : Policy) (change : Policy → Policy) (w v u : W) → {answer : Result (Unit {0})}
    → c.get_policy policy.namespace policy.name w ≡ (ok latest, v)
    → c.patch_status latest (change latest) v ≡ (answer, u)
    → answer ≢ err conflict
    → patch_latest c policy change w ≡ (answer, u)
unfolding patch_latest
patch_latest_lem c laws policy latest change w v u got patched settled =
    retried laws _ w (rw got patched) settled

-- A status update reads the policy and patches just what it read, where neither call conflicts.
pub update_status_lem :
    {W : Type 0} (c : Client W)
    → RetryLaws c
    → (policy latest : Policy) (phase : Phase) (message : String) (is_startup : Bool) (w v u : W)
    → {answer : Result (Unit {0})} → c.get_policy policy.namespace policy.name w ≡ (ok latest, v)
    → c.patch_status latest (with_status policy phase message is_startup latest) v ≡ (answer, u)
    → answer ≢ err conflict
    → update_status c policy phase message is_startup w ≡ (answer, u)
unfolding update_status
update_status_lem c laws policy latest phase message is_startup =
    patch_latest_lem c laws policy latest (with_status policy phase message is_startup)

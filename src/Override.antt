-- ===== src/Override.antt =====
-- Whether a manual operation is due, and whether it stops a resume that is under way:
-- `shouldSkipOperation` of internal/controller/namespacelifecyclepolicy_controller.go and
-- `checkManualOverride` of internal/controller/adaptive_throttling_helper.go.
pub mod Decisions
use app_lifecycle_kubernetes.Base.{
  String, Bool, true, false, not, ◌&&◌, Option, none, some, Action, pure, ◌>>=◌, wrapping, str_eq,
  if◌then◌else◌,
}
use app_lifecycle_kubernetes.Types.{Policy, PreConditionsStatus, is_freeze}
use app_lifecycle_kubernetes.Client.{Client}

-- `PreConditionsStatus != nil && PreConditionsStatus.Checking`
abbrev pub is_checking : Option PreConditionsStatus → Bool
is_checking none = false
is_checking (some s) = s.checking

unfoldable pub should_skip_operation : Policy → Bool
should_skip_operation policy =
    let spec = policy.spec in
    let status = policy.status in
    let handled = str_eq status.last_handled_operation_id spec.operation_id in
    if str_eq spec.operation_id ""
    then false
    else if is_checking status.pre_conditions_status
    then false
    else if status.pending_startup_resume && not handled
    then false
    else handled

-- The pending manual operation, with the exception for a startup that has handled none yet.
unfoldable pub is_manual_pending : Policy → Bool → Bool
is_manual_pending latest is_startup =
    let handled = latest.status.last_handled_operation_id in
    let pending =
      not (str_eq latest.spec.operation_id "") && not (str_eq handled latest.spec.operation_id) in
    if is_startup && str_eq handled "" then false else pending

-- `shouldAbort`, from the policy as it is now and as it was when the resume began. Both branches of
-- `if isStartupOperation` make the same test.
unfoldable pub should_abort : Policy → Policy → Bool → Bool
unfolding is_manual_pending
should_abort latest policy is_startup =
    let changed = not (str_eq latest.spec.operation_id policy.spec.operation_id) in
    let aborted =
      if is_manual_pending latest is_startup
      then (if is_startup then changed else changed)
      else false in
    if not is_startup && is_freeze latest.spec.action && not aborted then true else aborted

unfoldable pub check_manual_override : {W : Type 0} → Client W → Policy → Bool → Action W Bool
unfolding should_abort
check_manual_override c policy is_startup = do
  latest ← wrapping "failed to re-fetch policy" (c.get_policy policy.namespace policy.name)
  pure (should_abort latest policy is_startup)

-- ===== src/NodeFailure/Startup.antt =====
-- A node that is down when the operator starts: `HandleNodeFailureAtStartup`.
use app_lifecycle_kubernetes.Base.{
  ℕ, String, Bool, true, false, some, List, ◌≡◌, ◌≢◌, arith, Action, Result, ok, err, pure, ◌>>=◌,
  str_eq, str_eq_iff, if◌then◌else◌,
}
use app_lifecycle_kubernetes.Types.{Policy}
use app_lifecycle_kubernetes.Client.{Client}
use app_lifecycle_kubernetes.Override.{is_checking, should_skip_operation, is_manual_pending}
use app_lifecycle_kubernetes.NodeFailure.{handle_node_failure_event}
use app_lifecycle_kubernetes.NodeFailure.Degraded.{set_degraded_condition}

-- The caller's copy of the policy, with the failure noted before it is handled.
unfoldable pub with_failed_node : String → ℕ → Policy → Policy
with_failed_node failed_node now policy = record policy {
  status = record policy.status {
    failed_node_name = failed_node;
    node_failure_event_detected_at = some now;
  };
}

-- The status that is written afterwards: the event is handled, an existing operation id counts as
-- handled, and a resume is pending. The time of the condition is read from the clock once more.
unfoldable pub with_failure_handled :
    String → (detected handled condition_time : ℕ) → List String → Policy → Policy
with_failure_handled failed_node detected handled condition_time affected latest = record latest {
  status = record latest.status {
    failed_node_name = failed_node;
    node_failure_event_detected_at = some detected;
    node_failure_event_handled_at = some handled;
    affected_workloads = affected;
    conditions =
        set_degraded_condition condition_time failed_node affected latest.status.conditions;
    last_handled_operation_id =
        if str_eq latest.spec.operation_id ""
        then latest.status.last_handled_operation_id
        else latest.spec.operation_id;
    pending_startup_resume = true;
    resume_delay_started_at = some handled;
  };
}

abbrev clock : {W : Type 0} → Client W → Action W ℕ
clock c w = let (now, w₁) = c.now w in (ok now, w₁)

-- The answer with the caller's copy as it is left: with the written status on success, and with the
-- noted failure only on an error.
abbrev leave : {W : Type 0} → Policy → Result Policy × W → (Result (Unit {0}) × Policy) × W
leave noted (ok latest, w) = ((ok tt, record noted { status = latest.status }), w)
leave noted (err e, w) = ((err e, noted), w)

unfoldable pub handle_and_record : {W : Type 0} → Client W → Policy → String → ℕ → Action W Policy
unfolding with_failure_handled
handle_and_record c policy failed_node detected = do
  affected ← handle_node_failure_event c policy
  latest ← c.get_policy policy.namespace policy.name
  handled ← clock c
  condition_time ← clock c
  let after = with_failure_handled failed_node detected handled condition_time affected latest
  _ ← c.update_status after
  pure after

unfoldable pub handle_node_failure_at_startup :
    {W : Type 0} → Client W → Policy → String → W → (Result (Unit {0}) × Policy) × W
unfolding with_failed_node handle_and_record
handle_node_failure_at_startup c policy failed_node w =
    let (now, w₁) = c.now w in
    let noted = with_failed_node failed_node now policy in
    leave noted (handle_and_record c noted failed_node now w₁)

-- After a failure is handled at startup a resume is pending, and the operation that the policy names, if
-- it names one, counts as handled: it is skipped where no pre-conditions are being checked.
pub with_failure_handled_lem :
    (failed_node : String) (detected handled condition_time : ℕ) (affected : List String)
    (latest : Policy) (is_startup : Bool)
    → is_checking latest.status.pre_conditions_status ≡ false
    → latest.spec.operation_id ≢ ""
    → let after =
        with_failure_handled failed_node detected handled condition_time affected latest in
      (after.status.pending_startup_resume ≡ true)
      × (is_manual_pending after is_startup ≡ false)
      × (should_skip_operation after ≡ true)
unfolding with_failure_handled is_manual_pending should_skip_operation
with_failure_handled_lem failed_node detected handled condition_time affected latest is_startup
      checked named =
    ground (
      arith,
      str_eq_iff latest.spec.operation_id "",
      str_eq_iff latest.spec.operation_id latest.spec.operation_id,
    )

-- ===== src/Reconcile/Skipping.antt =====
-- What `Reconcile` does where the operation was handled already, and with a namespace that is not there
-- (internal/controller/namespacelifecyclepolicy_controller.go).
use app_lifecycle_kubernetes.Base.{
  ℕ, String, Bool, true, false, not, ◌&&◌, Option, some, Action, Result, ok, err, not_found, pure,
  throw, logged, ◌>>=◌, ◌>>◌, ltb, if◌then◌else◌,
}
use app_lifecycle_kubernetes.Base.Text.{◌+++◌}
use app_lifecycle_kubernetes.Types.{Policy, Phase}
use app_lifecycle_kubernetes.Client.{Client, describe}
use app_lifecycle_kubernetes.Override.{should_skip_operation}
use app_lifecycle_kubernetes.Progress.{update_status}
use app_lifecycle_kubernetes.Workloads.Balance.{should_perform_balancing, perform_balancing}
use app_lifecycle_kubernetes.Reconcile.Parts.{
  Stage, answer, fall_through, finished, clock, effect, is_newer,
}

abbrev pub is_after : Option ℕ → Option ℕ → Bool
is_after (some a) (some b) = ltb b a
is_after _ _ = false

abbrev pub is_resumed : Phase → Bool
is_resumed Phase.resumed = true
is_resumed _ = false

-- The node became ready after the resume, and the window is open; errors are only logged.
unfoldable pub balance_if_due : {W : Type 0} → Client W → Policy → W → W
balance_if_due c policy w =
    let (now, w₁) = c.now w in
    if policy.spec.balance_pods
      && is_after policy.status.node_ready_event_detected_at policy.status.last_resume_at
    then (if should_perform_balancing policy now
        then logged (perform_balancing c policy) w₁
        else w₁)
    else w

unfoldable pub with_ready_handled : ℕ → Policy → Policy
with_ready_handled now policy = record policy {
  status = record policy.status { node_ready_event_handled_at = some now };
}

unfoldable pub handle_ready_event : {W : Type 0} → Client W → Policy → Action W Stage
unfolding balance_if_due with_ready_handled
handle_ready_event c policy = do
  effect (balance_if_due c policy)
  now ← clock c
  c.update_status (with_ready_handled now policy)
  pure (answer finished)

unfoldable pub skip_stage : {W : Type 0} → Client W → Policy → Action W Stage
unfolding handle_ready_event
skip_stage c policy =
    if not (should_skip_operation policy)
    then pure (fall_through policy)
    else if is_newer policy.status.node_ready_event_detected_at
          policy.status.node_ready_event_handled_at
        && is_resumed policy.status.phase
    then handle_ready_event c policy
    else pure (answer finished)

abbrev pub missing_text : Policy → String
missing_text policy = "Target namespace '" +++ (policy.spec.target_namespace +++ "' not found")

-- What the look for the target namespace leads to.
unfoldable pub on_namespace : {W : Type 0} → Client W → Policy → Result (Unit {0}) → Action W Stage
on_namespace c policy (ok _) = pure (fall_through policy)
on_namespace c policy (err not_found) = do
  update_status c policy Phase.failed (missing_text policy) false
  pure (answer finished)
on_namespace c policy (err e) = do
  effect (
      logged
        (update_status c policy Phase.failed ("Failed to get namespace: " +++ describe c e) false))
  throw e

unfoldable pub namespace_stage : {W : Type 0} → Client W → Policy → Action W Stage
unfolding on_namespace
namespace_stage c policy w =
    let (looked, w₁) = c.get_namespace policy.spec.target_namespace w in
    on_namespace c policy looked w₁

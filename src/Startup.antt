-- ===== src/Startup.antt =====
-- The startup policy of one policy: `ApplyStartupPolicy` of
-- internal/controller/namespacelifecyclepolicy_controller.go.
pub mod Marks
pub mod Resumes
pub mod Programs
pub mod Freezing
pub mod Groups
pub mod Poll
pub mod Run
use app_lifecycle_kubernetes.Base.{
  ℕ, String, Bool, true, false, List, Option, none, some, Action, Result, ok, err, not_found,
  panicked, pure, throw, logged, ◌>>=◌, ◌>>◌, ltb, str_eq, if◌then◌else◌,
}
use app_lifecycle_kubernetes.Base.Text.{◌+++◌}
use app_lifecycle_kubernetes.Types.{Policy, Phase, StartupPolicy, StartupNodeReadinessPolicy}
use app_lifecycle_kubernetes.Client.{Client}
use app_lifecycle_kubernetes.Progress.{patch_latest}
use app_lifecycle_kubernetes.Nodes.Wait.{NodeSelect, wait_for_nodes_ready}
use app_lifecycle_kubernetes.Reconcile.Parts.{
  clock, effect, update_latest, list_workloads, freeze_all,
}
use app_lifecycle_kubernetes.Reconcile.Skipping.{is_resumed}

-- `sort.Slice`, which keeps no order of equals.
abbrev pub Sort : Type 0 → Type 0
Sort A = (A → A → Bool) → List A → List A

-- Only the startup's time and what was done are noted.
unfoldable pub with_startup_note : String → ℕ → Policy → Policy
with_startup_note action now latest = record latest {
  status = record latest.status { last_startup_action = action; last_startup_at = some now };
}

-- A resume is pending. An operation that the policy asks for counts as handled.
unfoldable pub with_resume_pending : ℕ → String → String → Policy → Policy
with_resume_pending now text action latest = record latest {
  status = record latest.status {
    last_handled_operation_id =
        if str_eq latest.spec.operation_id ""
        then latest.status.last_handled_operation_id
        else latest.spec.operation_id;
    pending_startup_resume = true;
    resume_delay_started_at = some now;
    phase = Phase.idle;
    message = text;
    last_startup_action = action;
    last_startup_at = some now;
  };
}

unfoldable pub with_freeze_pending : ℕ → String → Policy → Policy
with_freeze_pending now text latest = record latest {
  status = record latest.status {
    pending_freeze = true;
    freeze_delay_started_at = some now;
    phase = Phase.idle;
    message = text;
    last_startup_at = some now;
    last_startup_action = "FREEZE_DELAYED";
  };
}

abbrev or_else : {A : Type 0} → Option A → Option A → Option A
or_else none latest = latest
or_else (some a) latest = some a

-- The status at hand over the latest: four fields, and four more where they are set.
unfoldable pub with_startup_status : Policy → Policy → Policy
with_startup_status policy latest = record latest {
  status = record latest.status {
    phase = policy.status.phase;
    message = policy.status.message;
    last_startup_at = policy.status.last_startup_at;
    last_startup_action = policy.status.last_startup_action;
    last_resume_at = or_else policy.status.last_resume_at latest.status.last_resume_at;
    adaptive_progress = or_else policy.status.adaptive_progress latest.status.adaptive_progress;
    startup_ready_nodes =
        or_else policy.status.startup_ready_nodes latest.status.startup_ready_nodes;
    startup_nodes_waited =
        or_else policy.status.startup_nodes_waited latest.status.startup_nodes_waited;
  };
}

-- The metrics of the wait for nodes, on the policy at hand.
abbrev with_readiness : ℕ → ℕ → Policy → Policy
with_readiness nodes waited policy = record policy {
  status = record policy.status {
    startup_ready_nodes = some nodes;
    startup_nodes_waited = some waited;
  };
}

abbrev nodes_or_none : Result ℕ → ℕ
nodes_or_none (ok n) = n
nodes_or_none (err e) = 0

-- A wait that fails does not fail the startup. One on too little fuel counts as a fault of the program.
abbrev after_nodes : {W : Type 0} → Policy → W → Option ((Result ℕ × ℕ) × W) → Result Policy × W
after_nodes policy w none = (err (panicked "out of fuel"), w)
after_nodes policy w (some ((nodes, waited), w₁)) =
    (ok (with_readiness (nodes_or_none nodes) waited policy), w₁)

unfoldable pub await_nodes :
    {W : Type 0}
    → Client W
    → NodeSelect W
    → ℕ
    → Policy
    → Option StartupNodeReadinessPolicy
    → Action W Policy
await_nodes c select fuel policy none w = (ok policy, w)
await_nodes c select fuel policy (some config) w =
    if config.enabled
    then after_nodes policy w (wait_for_nodes_ready c select config fuel w)
    else (ok policy, w)

unfoldable pub freeze_listed : {W : Type 0} → Client W → Policy → ℕ → Action W (Unit {0})
unfolding with_freeze_pending with_startup_status
freeze_listed c policy now = do
  found ← list_workloads c policy
  if ltb 0 policy.spec.freeze_delay
      then patch_latest c policy (
          with_freeze_pending now (
            "Waiting "
            +++ (c.format_duration policy.spec.freeze_delay +++ " before starting startup Freeze")))
      else (effect (freeze_all c policy found)
          >> update_latest c policy (
              with_startup_status (record policy {
                status = record policy.status {
                  phase = Phase.frozen;
                  last_startup_action = "FREEZE_APPLIED";
                };
              })))

-- What the look for the target namespace leads to; one that is not there is noted and skipped.
unfoldable pub freeze_in :
    {W : Type 0} → Client W → Policy → ℕ → Result (Unit {0}) → Action W (Unit {0})
unfolding freeze_listed
freeze_in c policy now (ok _) = freeze_listed c policy now
freeze_in c policy now (err not_found) = effect (
    logged (
      c.update_status (record policy {
        status = record policy.status { last_startup_action = "SKIPPED_NAMESPACE_NOT_FOUND" };
      })))
freeze_in c policy now (err e) = throw e

unfoldable pub freeze_at_startup : {W : Type 0} → Client W → Policy → ℕ → Action W (Unit {0})
unfolding freeze_in
freeze_at_startup c policy now w =
    let (looked, w₁) = c.get_namespace policy.spec.target_namespace w in
    freeze_in c policy now looked w₁

abbrev pub resume_text : {W : Type 0} → Client W → Policy → String
resume_text c policy =
    if ltb 0 policy.spec.resume_delay
    then "Waiting " +++ (c.format_duration policy.spec.resume_delay +++ " before starting Resume")
    else "Resume pending — waiting for priority ordering"

abbrev pub resume_action : Policy → String
resume_action policy = if ltb 0 policy.spec.resume_delay then "RESUME_DELAYED" else "RESUME_PENDING"

unfoldable pub mark_resume : {W : Type 0} → Client W → Policy → ℕ → Action W (Unit {0})
unfolding with_resume_pending with_startup_note
mark_resume c policy now =
    if is_resumed policy.status.phase
    then patch_latest c policy (with_startup_note "NO_ACTION_ALREADY_RESUMED" now)
    else patch_latest c policy
        (with_resume_pending now (resume_text c policy) (resume_action policy))

-- The startup of a policy that is not ignored, after the wait for nodes.
unfoldable pub start_policy :
    {W : Type 0} → Client W → Policy → ℕ → StartupPolicy → Action W (Unit {0})
unfolding freeze_at_startup mark_resume with_startup_note
start_policy c policy now StartupPolicy.freeze = freeze_at_startup c policy now
start_policy c policy now StartupPolicy.resume = mark_resume c policy now
start_policy c policy now _ = patch_latest c policy (with_startup_note "SKIPPED_UNKNOWN_POLICY" now)

abbrev pub is_ignored : StartupPolicy → Bool
is_ignored StartupPolicy.ignore = true
is_ignored _ = false

unfoldable pub apply_startup_policy :
    {W : Type 0} → Client W → NodeSelect W → ℕ → Policy → Action W (Unit {0})
unfolding with_startup_note await_nodes start_policy
apply_startup_policy c select fuel policy = do
  now ← clock c
  if is_ignored policy.spec.startup_policy
      then patch_latest c policy (with_startup_note "SKIPPED_IGNORE" now)
      else (await_nodes c select fuel
            (record policy { status = record policy.status { last_startup_at = some now } })
            policy.spec.startup_node_readiness_policy
          >>= λ known. start_policy c known now policy.spec.startup_policy)

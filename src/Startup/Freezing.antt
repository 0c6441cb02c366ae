-- ===== src/Startup/Freezing.antt =====
-- The startup freeze of one policy: `processPolicyWithDelayAndFreeze` and `waitForReplicasZero` of
-- cmd/main.go, as the program of a goroutine. The loops run on fuel.
pub mod Returns
use app_lifecycle_kubernetes.Base.{
  ℕ, zero, suc, ◌-◌, Bool, true, false, ◌&&◌, Option, none, some, List, Result, ok, err, all, leb,
  ltb, ◌==◌, String, if◌then◌else◌,
}
use app_lifecycle_kubernetes.Types.{Policy, Phase, StartupPolicy, LabelSelector}
use app_lifecycle_kubernetes.Kube.{Workload}
use app_lifecycle_kubernetes.Client.{Client}
use app_lifecycle_kubernetes.Reconcile.Parts.{seconds}
use app_lifecycle_kubernetes.Startup.{apply_startup_policy}
use app_lifecycle_kubernetes.Nodes.Wait.{NodeSelect}
use app_lifecycle_kubernetes.Startup.Programs.{
  Program, returned, ◌>>=◌, ◌>>◌, perform, time_now, sleep_for,
}

abbrev pub max_replicas_wait : ℕ
max_replicas_wait = seconds 300

abbrev pub max_freeze_wait : ℕ
max_freeze_wait = seconds 600

abbrev pub poll_interval : ℕ
poll_interval = seconds 2

-- No replica of a Deployment is available or ready.
abbrev pub is_down : Workload → Bool
is_down d = d.available_replicas == 0 && d.ready_replicas == 0

-- No replica of a StatefulSet is ready.
abbrev pub is_set_down : Workload → Bool
is_set_down s = s.ready_replicas == 0

-- What the listings say: an answer, or that the wait goes on.
unfoldable pub judge_replicas : List Workload → Result (List Workload) → Option Bool
judge_replicas deployments (err e) = some false
judge_replicas deployments (ok stateful_sets) =
    if all is_down deployments && all is_set_down stateful_sets then some true else none

unfoldable pub after_deployments :
    {W : Type 0}
    → Client W
    → String
    → Option LabelSelector
    → Result (List Workload)
    → Program W (Option Bool)
unfolding judge_replicas
after_deployments c namespace selector (err e) = returned (some false)
after_deployments c namespace selector (ok deployments) = do
  stateful_sets ← perform (c.stateful_sets.list namespace selector)
  returned (judge_replicas deployments stateful_sets)

-- A look at all workloads.
unfoldable pub look_at_replicas :
    {W : Type 0} → Client W → String → Option LabelSelector → Program W (Option Bool)
unfolding after_deployments
look_at_replicas c namespace selector = do
  deployments ← perform (c.deployments.list namespace selector)
  after_deployments c namespace selector deployments

-- A loop goes on after a pause, where a round gave no answer.
abbrev pub or_again :
    {W A : Type 0} → Client W → Program W (Option A) → Option A → Program W (Option A)
or_again c later (some answer) = returned (some answer)
or_again c later none = sleep_for c poll_interval >> later

-- The loop of `waitForReplicasZero`; without fuel it gives nothing.
unfoldable pub replicas_loop :
    {W : Type 0}
    → Client W
    → String
    → Option LabelSelector
    → (start fuel : ℕ) → Program W (Option Bool)
unfolding look_at_replicas
replicas_loop c namespace selector start zero = returned none
replicas_loop c namespace selector start (suc fuel) = time_now c >>= λ now.
    if leb max_replicas_wait (now - start)
    then returned (some false)
    else (look_at_replicas c namespace selector >>= λ answer.
        or_again c (replicas_loop c namespace selector start fuel) answer)

unfoldable pub wait_for_replicas_zero :
    {W : Type 0} → Client W → String → Option LabelSelector → ℕ → Program W (Option Bool)
unfolding replicas_loop
wait_for_replicas_zero c namespace selector fuel =
    time_now c >>= λ start. replicas_loop c namespace selector start fuel

-- The freeze is over, well or not.
abbrev pub is_over : Phase → Bool
is_over Phase.frozen = true
is_over Phase.failed = true
is_over _ = false

abbrev pub over : Policy → Option Policy
over p = if is_over p.status.phase then some p else none

abbrev pub after_read :
    {W : Type 0}
    → Client W
    → Policy
    → (Policy → Program W (Option Policy))
    → Result Policy
    → Program W (Option Policy)
after_read c latest later (err e) = returned (some latest)
after_read c latest later (ok p) = or_again c (later p) (over p)

-- The wait for the freeze: the policy as it was read last.
unfoldable pub freeze_loop :
    {W : Type 0} → Client W → Policy → (start fuel : ℕ) → Policy → Program W (Option Policy)
freeze_loop c policy start zero latest = returned none
freeze_loop c policy start (suc fuel) latest = time_now c >>= λ now.
    if leb max_freeze_wait (now - start)
    then returned (some latest)
    else (perform (c.get_policy policy.namespace policy.name) >>= λ read.
        after_read c latest (freeze_loop c policy start fuel) read)

-- Whatever the wait for replicas answers, the goroutine ends; too little fuel gives nothing.
abbrev pub ended : Option Bool → Option (Unit {0})
ended none = none
ended (some found) = some tt

unfoldable pub verify_replicas :
    {W : Type 0} → Client W → ℕ → Option Policy → Program W (Option (Unit {0}))
unfolding wait_for_replicas_zero
verify_replicas c fuel none = returned none
verify_replicas c fuel (some latest) = do
  found ← wait_for_replicas_zero c latest.spec.target_namespace latest.spec.selector fuel
  returned (ended found)

unfoldable pub await_freeze :
    {W : Type 0} → Client W → ℕ → Policy → Result Policy → Program W (Option (Unit {0}))
unfolding freeze_loop verify_replicas
await_freeze c fuel policy (err e) = returned (some tt)
await_freeze c fuel policy (ok latest) = do
  start ← time_now c
  last ← freeze_loop c policy start fuel latest
  verify_replicas c fuel last

abbrev pub is_freeze_policy : StartupPolicy → Bool
is_freeze_policy StartupPolicy.freeze = true
is_freeze_policy _ = false

-- After the delay, where there is one, the policy is read again.
unfoldable pub await_delay :
    {W : Type 0} → Client W → ℕ → Policy → Result Policy → Program W (Option (Unit {0}))
unfolding await_freeze
await_delay c fuel policy (err e) = returned (some tt)
await_delay c fuel policy (ok latest) =
    if is_freeze_policy latest.spec.startup_policy
    then (if ltb 0 latest.spec.freeze_delay
        then (sleep_for c latest.spec.freeze_delay
            >> (perform (c.get_policy policy.namespace policy.name) >>= λ again.
                await_freeze c fuel policy again))
        else await_freeze c fuel policy (ok latest))
    else returned (some tt)

-- What follows the startup policy, which is one call here.
unfoldable pub after_startup :
    {W : Type 0} → Client W → ℕ → Policy → Result (Unit {0}) → Program W (Option (Unit {0}))
unfolding await_delay
after_startup c fuel policy (err e) = returned (some tt)
after_startup c fuel policy (ok _) = do
  latest ← perform (c.get_policy policy.namespace policy.name)
  await_delay c fuel policy latest

unfoldable pub process_policy_with_delay_and_freeze :
    {W : Type 0} → Client W → NodeSelect W → ℕ → Policy → Program W (Option (Unit {0}))
unfolding apply_startup_policy after_startup
process_policy_with_delay_and_freeze c select fuel policy = do
  applied ← perform (apply_startup_policy c select fuel policy)
  after_startup c fuel policy applied

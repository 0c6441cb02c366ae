-- ===== src/Nodes/Wait.antt =====
-- The wait for worker nodes at startup: `waitForNodesReady` of
-- internal/controller/namespacelifecyclepolicy_controller.go.
pub mod Outcomes
use app_lifecycle_kubernetes.Base.{
  ℕ, zero, suc, ◌-◌, ◌/◌, Bool, true, false, Option, none, some, Action, Result, ok, err, Error,
  canceled, leb, default_if_zero, if◌then◌else◌,
}
use app_lifecycle_kubernetes.Base.Dict.{Dict}
use app_lifecycle_kubernetes.Base.{String}
use app_lifecycle_kubernetes.Types.{StartupNodeReadinessPolicy}
use app_lifecycle_kubernetes.Client.{Client}
use app_lifecycle_kubernetes.Nodes.{count_total_worker_nodes, count_ready_worker_nodes}

-- What the `select` finds ready: the context's end, the timer, or the ticker.
pub data WaitEvent : Type 0 where
  done timed_out ticked : WaitEvent

-- `ctx.Err()` behind `<-ctx.Done()`.
abbrev pub or_canceled : Option Error → Error
or_canceled none = canceled
or_canceled (some e) = e

abbrev total_or_one : {W : Type 0} → Result ℕ × W → ℕ × W
total_or_one (ok n, w) = (n, w)
total_or_one (err e, w) = (1, w)

-- How many nodes must be ready.
unfoldable pub least_nodes : {W : Type 0} → Client W → StartupNodeReadinessPolicy → W → ℕ × W
least_nodes c policy w =
    if policy.require_all_nodes
    then total_or_one (count_total_worker_nodes c policy.node_selector w)
    else (default_if_zero 1 policy.min_ready_nodes, w)

-- The count, or why there is none, with the seconds since `start`, as the function returns them.
unfoldable pub counted_at : {W : Type 0} → Client W → ℕ → Result ℕ → W → (Result ℕ × ℕ) × W
counted_at c start count w = let (now, w₁) = c.now w in ((count, (now - start) / 1000000000), w₁)

abbrev pub is_enough : ℕ → Result ℕ → Bool
is_enough least (err e) = false
is_enough least (ok n) = leb least n

-- The loop, over what `select` finds, on fuel; a count that fails is logged and tried again.
unfoldable pub wait_nodes_loop :
    {W : Type 0}
    → Client W
    → (W → WaitEvent × W)
    → Dict String
    → (least start fuel : ℕ) → W
    → Option ((Result ℕ × ℕ) × W)
unfolding counted_at
wait_nodes_loop c select selector least start zero w = none
wait_nodes_loop c select selector least start (suc fuel) w =
    let (event, w₁) = select w in
    let (count, w₂) = count_ready_worker_nodes c selector w₁ in
    let later = wait_nodes_loop c select selector least start fuel w₂ in
    elim event [
      | done ↦ some ((err (or_canceled (c.context_error w₁)), 0), w₁)
      | timed_out ↦ some (counted_at c start count w₂)
      | ticked ↦ if is_enough least count then some (counted_at c start count w₂) else later
    ]

-- What `select` finds, by the ticker's period and the seconds until the timer fires, which are both
-- fixed when they are created, before the loop.
abbrev pub NodeSelect : Type 0 → Type 0
NodeSelect W = (period seconds : ℕ) → W → WaitEvent × W

unfoldable pub wait_timeout : StartupNodeReadinessPolicy → ℕ
wait_timeout policy = default_if_zero 60 policy.timeout_seconds

unfoldable pub wait_for_nodes_ready :
    {W : Type 0}
    → Client W
    → NodeSelect W
    → StartupNodeReadinessPolicy
    → ℕ
    → W
    → Option ((Result ℕ × ℕ) × W)
unfolding least_nodes wait_nodes_loop wait_timeout
wait_for_nodes_ready c select policy fuel w =
    let (least, w₁) = least_nodes c policy w in
    let (start, w₂) = c.now w₁ in
    wait_nodes_loop c (select 2 (wait_timeout policy)) policy.node_selector least start fuel w₂

-- ===== src/Startup/Resumes.antt =====
-- The startup of all policies that are to be resumed: the scan for failed nodes and the marking by
-- priority in `applyStartupPolicies` of cmd/main.go.
pub mod Scan
use app_lifecycle_kubernetes.Base.{
  ℕ, String, Bool, true, false, not, ◌&&◌, none, List, [], ◌∷◌, ◌++◌, Result, ok, err, logged, keep,
  any, ltb, str_eq, if◌then◌else◌,
}
use app_lifecycle_kubernetes.Types.{Policy, StartupPolicy}
use app_lifecycle_kubernetes.Kube.{Node}
use app_lifecycle_kubernetes.Client.{Client}
use app_lifecycle_kubernetes.Priority.{resume_rank}
use app_lifecycle_kubernetes.NodeFailure.Startup.{handle_node_failure_at_startup}
use app_lifecycle_kubernetes.Reconcile.Parts.{is_newer}
use app_lifecycle_kubernetes.Reconcile.Failing.{not_ready}
use app_lifecycle_kubernetes.Startup.{Sort, apply_startup_policy}
use app_lifecycle_kubernetes.Nodes.Wait.{NodeSelect}

abbrev pub is_resume : StartupPolicy → Bool
is_resume StartupPolicy.resume = true
is_resume _ = false

-- The policies with `startupPolicy: Resume`, in their order.
unfoldable pub resume_policies : List Policy → List Policy
resume_policies = keep (λ p. is_resume p.spec.startup_policy)

-- The nodes that are listed with a Ready condition that is not true.
unfoldable pub failed_nodes : List Node → List Node
failed_nodes = keep (λ n. any not_ready n.conditions)

-- This failure was handled, and no other detected since.
unfoldable pub is_already_handled : String → Policy → Bool
is_already_handled name p =
    str_eq p.status.failed_node_name name
    && is_newer p.status.node_failure_event_handled_at p.status.node_failure_event_detected_at

-- One policy of the scan: whether its startup resume goes on, and what is done about the failure. An
-- error is only logged.
unfoldable pub scan_policy : {W : Type 0} → Client W → String → Policy → W → List Policy × W
unfolding is_already_handled
scan_policy c name p w =
    if not p.spec.handle_node_failure
    then (p ∷ [], w)
    else if is_already_handled name p
    then ([], w)
    else ([], (handle_node_failure_at_startup c p name w).1)

unfoldable pub scan_policies : {W : Type 0} → Client W → String → List Policy → W → List Policy × W
unfolding scan_policy
scan_policies c name [] w = ([], w)
scan_policies c name (p ∷ rest) w =
    let (first, w₁) = scan_policy c name p w in
    let (more, w₂) = scan_policies c name rest w₁ in (first ++ more, w₂)

-- Only the first failed node is looked at.
unfoldable pub scan_with : {W : Type 0} → Client W → List Policy → List Node → W → List Policy × W
unfolding scan_policies
scan_with c policies [] w = (policies, w)
scan_with c policies (node ∷ nodes) w = scan_policies c node.name policies w

-- Where the nodes cannot be listed the scan is skipped.
unfoldable pub scan_result :
    {W : Type 0} → Client W → List Policy → Result (List Node) → W → List Policy × W
unfolding scan_with failed_nodes
scan_result c policies (err e) w = (policies, w)
scan_result c policies (ok nodes) w = scan_with c policies (failed_nodes nodes) w

unfoldable pub scan : {W : Type 0} → Client W → List Policy → W → List Policy × W
unfolding scan_result
scan c policies w = let (nodes, w₁) = c.list_nodes_uncached w in scan_result c policies nodes w₁

-- The order of the resumes, for `sort.Slice`.
unfoldable pub resumes_before : Policy → Policy → Bool
resumes_before p q = ltb (resume_rank p) (resume_rank q)

-- The loop over the sorted policies, which logs errors.
unfoldable pub mark_all : {W : Type 0} → Client W → NodeSelect W → ℕ → List Policy → W → W
unfolding apply_startup_policy
mark_all c select fuel [] w = w
mark_all c select fuel (p ∷ rest) w =
    mark_all c select fuel rest (logged (apply_startup_policy c select fuel p) w)

unfoldable pub start_resumes :
    {W : Type 0} → Client W → Sort Policy → NodeSelect W → ℕ → List Policy → W → W
unfolding resume_policies scan resumes_before mark_all
start_resumes c sort select fuel policies w =
    let (kept, w₁) = scan c (resume_policies policies) w in
    mark_all c select fuel (sort resumes_before kept) w₁

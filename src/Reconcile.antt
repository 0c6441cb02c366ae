-- ===== src/Reconcile.antt =====
-- `Reconcile` of internal/controller/namespacelifecyclepolicy_controller.go, by its branches: a branch
-- either returns or falls through to the next.
pub mod Parts
pub mod Freezing
pub mod Resuming
pub mod Failing
pub mod Skipping
pub mod Checking
pub mod Acts
pub mod Manual
pub mod Dispatch
pub mod Operation
pub mod Turns
pub mod Bookkeeping
use app_lifecycle_kubernetes.Base.{
  String, Option, none, some, Action, Result, ok, err, not_found, false, pure, throw, ◌>>=◌, ◌>>◌,
}
use app_lifecycle_kubernetes.Base.Text.{◌+++◌}
use app_lifecycle_kubernetes.Types.{Policy, Phase}
use app_lifecycle_kubernetes.Client.{Client}
use app_lifecycle_kubernetes.Priority.{find_conflict}
use app_lifecycle_kubernetes.Progress.{update_status}
use app_lifecycle_kubernetes.Reconcile.Parts.{
  Operator, Requeue, finished, Stage, answer, fall_through, continue,
}
use app_lifecycle_kubernetes.Reconcile.Freezing.{pending_freeze_stage}
use app_lifecycle_kubernetes.Reconcile.Resuming.{pending_resume_stage}
use app_lifecycle_kubernetes.Reconcile.Failing.{failure_stage, cleanup_stage}
use app_lifecycle_kubernetes.Reconcile.Skipping.{skip_stage, namespace_stage}
use app_lifecycle_kubernetes.Reconcile.Checking.{checking_stage}
use app_lifecycle_kubernetes.Reconcile.Manual.{run_operation}

abbrev pub conflict_text : Policy → Policy → String
conflict_text policy p =
    "Conflict: Namespace '"
    +++ (policy.spec.target_namespace +++ ("' is already managed by policy '" +++ (p.name +++ "'")))

-- A policy that gives way to another fails and is left alone.
unfoldable pub on_conflict : {W : Type 0} → Client W → Policy → Option Policy → Action W Stage
on_conflict c policy none = pure (fall_through policy)
on_conflict c policy (some p) = do
  update_status c policy Phase.failed (conflict_text policy p) false
  pure (answer finished)

unfoldable pub conflict_stage : {W : Type 0} → Client W → Policy → Action W Stage
unfolding on_conflict
conflict_stage c policy = do
  policies ← c.list_policies
  on_conflict c policy (find_conflict policy policies)

-- The branches from the node failure on.
unfoldable pub settled_branches : {W : Type 0} → Operator W → Policy → Action W Requeue
settled_branches op policy = failure_stage op.client policy >>= λ s₁. continue s₁ (λ p₁.
    cleanup_stage op.client p₁ >>= λ s₂. continue s₂ (λ p₂. skip_stage op.client p₂ >>= λ s₃.
    continue s₃ (λ p₃. namespace_stage op.client p₃ >>= λ s₄.
    continue s₄ (λ p₄. checking_stage op p₄ >>= λ s₅. continue s₅ (run_operation op)))))

-- All branches in their order.
unfoldable pub branches : {W : Type 0} → Operator W → Policy → Action W Requeue
unfolding conflict_stage settled_branches
branches op policy = conflict_stage op.client policy >>= λ s₁. continue s₁ (λ p₁.
    pending_freeze_stage op.client p₁ >>= λ s₂.
    continue s₂ (λ p₂. pending_resume_stage op p₂ >>= λ s₃. continue s₃ (settled_branches op)))

-- A policy that is gone needs nothing.
unfoldable pub on_policy : {W : Type 0} → Operator W → Result Policy → Action W Requeue
unfolding branches
on_policy op (ok policy) = branches op policy
on_policy op (err not_found) = pure finished
on_policy op (err e) = throw e

unfoldable pub reconcile : {W : Type 0} → Operator W → String → String → Action W Requeue
unfolding on_policy
reconcile op namespace name w =
    let (read, w₁) = op.client.get_policy namespace name w in on_policy op read w₁

-- ===== src/Reconcile/Operation.antt =====
-- A manual operation from the request to the workloads.
use app_lifecycle_kubernetes.Base.{String, false, List, ok, none, ◌≡◌, refl, sym, ◌∙◌}
use app_lifecycle_kubernetes.Types.{Policy, LifecycleAction}
use app_lifecycle_kubernetes.Kube.{Workload}
use app_lifecycle_kubernetes.Override.{is_checking, should_skip_operation}
use app_lifecycle_kubernetes.Priority.{find_conflict}
use app_lifecycle_kubernetes.Reconcile.{
  reconcile, on_policy, branches, settled_branches, on_conflict, conflict_stage,
}
use app_lifecycle_kubernetes.Reconcile.Parts.{Operator, Requeue, fall_through, is_failure_active}
use app_lifecycle_kubernetes.Reconcile.Skipping.{skip_stage, namespace_stage, on_namespace}
use app_lifecycle_kubernetes.Reconcile.Checking.{checking_stage}
use app_lifecycle_kubernetes.Reconcile.Manual.{run_operation}
use app_lifecycle_kubernetes.Reconcile.Manual.Cluster.{QuietCluster}
use app_lifecycle_kubernetes.Reconcile.Manual.Outcome.{Listed, AllFrozen, run_operation-AllFrozen}
use app_lifecycle_kubernetes.Reconcile.Dispatch.{
  failure_stage-idle, cleanup_stage-idle, pending_freeze_stage-idle, pending_resume_stage-idle,
}

-- A manual operation is due, and nothing else is.
pub record IsAsked (p : Policy) : Type 0 where
  pub no_freeze : p.status.pending_freeze ≡ false
  pub no_resume : p.status.pending_startup_resume ≡ false
  pub no_failure : is_failure_active p ≡ false
  pub no_failed_node : p.status.failed_node_name ≡ ""
  pub is_due : should_skip_operation p ≡ false
  pub not_checking : is_checking p.status.pre_conditions_status ≡ false

-- What `Reconcile` reads of a policy that no other goes before, up to the namespace.
pub record Reads {W : Type 0} (op : Operator W) (namespace name : String) (p : Policy) (w : W)
    : Type 0 where
  pub policies : List Policy
  pub read : W
  pub listed : W
  pub looked : W
  pub policy_read : op.client.get_policy namespace name w ≡ (ok p, read)
  pub policies_listed : op.client.list_policies read ≡ (ok policies, listed)
  pub is_alone : find_conflict p policies ≡ none
  pub namespace_found : op.client.get_namespace p.spec.target_namespace listed ≡ (ok tt, looked)

module _ {W : Type 0} (op : Operator W) (p : Policy) where
  skip_stage-due :
      (w : W)
      → should_skip_operation p ≡ false
      → skip_stage op.client p w ≡ (ok (fall_through p), w)
  unfolding skip_stage
  skip_stage-due w h = rw h refl

  checking_stage-idle :
      (w : W)
      → is_checking p.status.pre_conditions_status ≡ false
      → checking_stage op p w ≡ (ok (fall_through p), w)
  unfolding checking_stage
  checking_stage-idle w h = rw h refl

  settled_branches-IsAsked :
      (w v : W)
      → IsAsked p
      → op.client.get_namespace p.spec.target_namespace w ≡ (ok tt, v)
      → settled_branches op p w ≡ run_operation op p v
  unfolding settled_branches namespace_stage on_namespace
  settled_branches-IsAsked w v s found =
      rw
        (
          failure_stage-idle op p w s.no_failure,
          cleanup_stage-idle op p w s.no_failed_node,
          skip_stage-due w s.is_due,
          found,
          checking_stage-idle v s.not_checking,
        )
        refl

  -- The request leads to the operation.
  reconcile-IsAsked :
      (namespace name : String) (w : W) (reads : Reads op namespace name p w)
      → IsAsked p
      → reconcile op namespace name w ≡ run_operation op p reads.looked
  unfolding reconcile on_policy branches conflict_stage on_conflict
  reconcile-IsAsked namespace name w reads s =
      rw
        (
          reads.policy_read,
          reads.policies_listed,
          reads.is_alone,
          pending_freeze_stage-idle op p reads.listed s.no_freeze,
          pending_resume_stage-idle op p reads.listed s.no_resume,
          settled_branches-IsAsked reads.listed reads.looked s reads.namespace_found,
        )
        refl

-- In a quiet cluster, a reconciliation of a policy that asks for a freeze, and has nothing else pending,
-- returns without an error only with every Deployment and StatefulSet that it listed stored with zero
-- replicas.
pub reconcile-AllFrozen :
    {W : Type 0} (op : Operator W) (quiet : QuietCluster op.client) (namespace name : String)
    (p : Policy) (w u : W) (r : Requeue)
    → Reads op namespace name p w
    → IsAsked p
    → p.spec.action ≡ LifecycleAction.freeze
    → reconcile op namespace name w ≡ (ok r, u)
    → (ds : List Workload) × (ss : List Workload) × Listed op.client p ds ss
      × AllFrozen quiet u ds ss
reconcile-AllFrozen op quiet namespace name p w u r reads asked freeze h =
    run_operation-AllFrozen op quiet p reads.looked u r freeze
      (sym (reconcile-IsAsked op p namespace name w reads asked) ∙ h)

-- ===== src/Reconcile/Dispatch.antt =====
-- Which branch of `Reconcile` a policy takes, where it takes none that acts on workloads.
use app_lifecycle_kubernetes.Base.{
  ℕ, ◌≤◌, ◌≢◌, ◌⊎◌, arith, str_eq_iff, Option, String, true, false, List, ok, none, some, ◌≡◌, refl,
  Bool-cases, inl, inr,
}
use app_lifecycle_kubernetes.Types.{Policy, Phase, PreConditionsStatus}
use app_lifecycle_kubernetes.Client.{RetryLaws}
use app_lifecycle_kubernetes.Override.{is_checking, should_skip_operation}
use app_lifecycle_kubernetes.Priority.{find_conflict}
use app_lifecycle_kubernetes.Progress.{with_status}
use app_lifecycle_kubernetes.Progress.Writes.{update_status_lem}
use app_lifecycle_kubernetes.Reconcile.{
  reconcile, on_policy, branches, settled_branches, on_conflict, conflict_stage, conflict_text,
}
use app_lifecycle_kubernetes.Reconcile.Parts.{
  Operator, answer, fall_through, finished, is_failure_active, is_newer,
}
use app_lifecycle_kubernetes.Reconcile.Freezing.{pending_freeze_stage}
use app_lifecycle_kubernetes.Reconcile.Resuming.{pending_resume_stage}
use app_lifecycle_kubernetes.Reconcile.Failing.{failure_stage, cleanup_stage}
use app_lifecycle_kubernetes.Reconcile.Skipping.{skip_stage}

-- What was detected, if anything, was handled then or later.
pub data Seen : Option ℕ → Option ℕ → Type 0 where
  undetected : {handled : Option ℕ} → Seen none handled
  handled_since : {detected handled : ℕ} → detected ≤ handled → Seen (some detected) (some handled)

Seen-is_newer :
    {detected handled : Option ℕ} → Seen detected handled → is_newer detected handled ≡ false
Seen-is_newer undetected = refl
Seen-is_newer (handled_since h) = ground (arith, h)

-- The last operation that was handled is the one that the policy names, and it names one; no startup
-- operation and no check of pre-conditions is under way; the failure of a node, if the policy looks
-- after those, and its return were handled.
pub record IsSettled (p : Policy) : Type 0 where
  pub no_freeze : p.status.pending_freeze ≡ false
  pub no_resume : p.status.pending_startup_resume ≡ false
  pub no_failure :
      (p.spec.handle_node_failure ≡ false)
      ⊎ Seen p.status.node_failure_event_detected_at p.status.node_failure_event_handled_at
  pub no_failed_node : p.status.failed_node_name ≡ ""
  pub is_named : p.spec.operation_id ≢ ""
  pub is_handled : p.status.last_handled_operation_id ≡ p.spec.operation_id
  pub no_check :
      (s : PreConditionsStatus) → p.status.pre_conditions_status ≡ some s → s.checking ≡ false
  pub no_event : Seen p.status.node_ready_event_detected_at p.status.node_ready_event_handled_at

no_check-is_checking :
    (status : Option PreConditionsStatus)
    → ((s : PreConditionsStatus) → status ≡ some s → s.checking ≡ false)
    → is_checking status ≡ false
no_check-is_checking none h = refl
no_check-is_checking (some s) h = h s refl

IsSettled-should_skip_operation : (p : Policy) → IsSettled p → should_skip_operation p ≡ true
unfolding should_skip_operation
IsSettled-should_skip_operation p s = ground (
  arith,
  no_check-is_checking p.status.pre_conditions_status s.no_check,
  s.no_resume,
  s.is_named,
  s.is_handled,
  str_eq_iff p.spec.operation_id "",
  str_eq_iff p.status.last_handled_operation_id p.spec.operation_id,
)

IsSettled-is_failure_active : (p : Policy) → IsSettled p → is_failure_active p ≡ false
unfolding is_failure_active
IsSettled-is_failure_active p s = elim s.no_failure [
  | inl off ↦ rw off refl
  | inr seen ↦ elim (Bool-cases p.spec.handle_node_failure) [
    | inl y ↦ rw y (Seen-is_newer seen)
    | inr n ↦ rw n refl
  ]
]

module _ {W : Type 0} (op : Operator W) (p : Policy) where
  pub failure_stage-idle :
      (w : W) → is_failure_active p ≡ false → failure_stage op.client p w ≡ (ok (fall_through p), w)
  unfolding failure_stage
  failure_stage-idle w h = rw h refl

  pub cleanup_stage-idle :
      (w : W)
      → p.status.failed_node_name ≡ ""
      → cleanup_stage op.client p w ≡ (ok (fall_through p), w)
  unfolding cleanup_stage
  cleanup_stage-idle w h = elim (Bool-cases p.spec.handle_node_failure) [
    | inl y ↦ simp (y, h) refl
    | inr n ↦ simp n refl
  ]

  skip_stage-quiet :
      (w : W)
      → should_skip_operation p ≡ true
      → is_newer p.status.node_ready_event_detected_at p.status.node_ready_event_handled_at ≡ false
      → skip_stage op.client p w ≡ (ok (answer finished), w)
  unfolding skip_stage
  skip_stage-quiet w h e = rw (h, e) refl

  pub pending_freeze_stage-idle :
      (w : W)
      → p.status.pending_freeze ≡ false
      → pending_freeze_stage op.client p w ≡ (ok (fall_through p), w)
  unfolding pending_freeze_stage
  pending_freeze_stage-idle w h = simp h refl

  pub pending_resume_stage-idle :
      (w : W)
      → p.status.pending_startup_resume ≡ false
      → pending_resume_stage op p w ≡ (ok (fall_through p), w)
  unfolding pending_resume_stage
  pending_resume_stage-idle w h = simp h refl

  settled_branches-IsSettled : (w : W) → IsSettled p → settled_branches op p w ≡ (ok finished, w)
  unfolding settled_branches
  settled_branches-IsSettled w s =
      rw
        (
          failure_stage-idle w (IsSettled-is_failure_active p s),
          cleanup_stage-idle w s.no_failed_node,
          skip_stage-quiet w (IsSettled-should_skip_operation p s) (Seen-is_newer s.no_event),
        )
        refl

  branches-IsSettled :
      (ps : List Policy) (w v : W)
      → op.client.list_policies w ≡ (ok ps, v)
      → find_conflict p ps ≡ none
      → IsSettled p
      → branches op p w ≡ (ok finished, v)
  unfolding branches conflict_stage on_conflict
  branches-IsSettled ps w v listed alone s =
      rw
        (
          listed,
          alone,
          pending_freeze_stage-idle v s.no_freeze,
          pending_resume_stage-idle v s.no_resume,
          settled_branches-IsSettled v s,
        )
        refl

-- A policy that names the operation that was handled last, for which no startup operation is pending, no
-- check of pre-conditions is under way and every node event was handled, and which gives way to no
-- other policy, is left alone: `Reconcile` reads it and the list of policies, and does no more.
pub reconcile-IsSettled :
    {W : Type 0} (op : Operator W) (namespace name : String) (p : Policy) (ps : List Policy)
    (w v u : W)
    → op.client.get_policy namespace name w ≡ (ok p, v)
    → op.client.list_policies v ≡ (ok ps, u)
    → find_conflict p ps ≡ none
    → IsSettled p
    → reconcile op namespace name w ≡ (ok finished, u)
unfolding reconcile on_policy
reconcile-IsSettled op namespace name p ps w v u got listed alone s =
    rw got (branches-IsSettled op p ps v u listed alone s)

-- A policy that gives way to another is marked as failed, and no branch runs: `Reconcile` reads it and
-- the list, reads it again, and patches its status, where these calls succeed.
pub reconcile-conflict :
    {W : Type 0} (op : Operator W) (laws : RetryLaws op.client) (namespace name : String)
    (p q latest : Policy) (ps : List Policy) (w v u z t : W)
    → op.client.get_policy namespace name w ≡ (ok p, v)
    → op.client.list_policies v ≡ (ok ps, u)
    → find_conflict p ps ≡ some q
    → op.client.get_policy p.namespace p.name u ≡ (ok latest, z)
    → op.client.patch_status latest (with_status p Phase.failed (conflict_text p q) false latest) z
      ≡ (ok tt, t)
    → reconcile op namespace name w ≡ (ok finished, t)
unfolding reconcile on_policy branches conflict_stage on_conflict
reconcile-conflict op laws namespace name p q latest ps w v u z t got listed other again patched =
    rw
      (
        got,
        listed,
        other,
        update_status_lem op.client laws p latest Phase.failed (conflict_text p q) false u z t again
            patched (λ e. cc e),
      )
      refl

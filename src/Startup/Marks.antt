-- ===== src/Startup/Marks.antt =====
-- What the status that a startup policy leaves means for the runs of `Reconcile` that follow.
use app_lifecycle_kubernetes.Base.{ℕ, String, true, false, ok, ◌≡◌, refl, arith, str_eq_iff}
use app_lifecycle_kubernetes.Types.{Policy}
use app_lifecycle_kubernetes.Client.{RetryLaws}
use app_lifecycle_kubernetes.Progress.Writes.{patch_latest_lem}
use app_lifecycle_kubernetes.Reconcile.Parts.{Operator, is_failure_active}
use app_lifecycle_kubernetes.Reconcile.Skipping.{is_resumed}
use app_lifecycle_kubernetes.Reconcile.Resuming.{is_unhandled, pending_resume_stage, resume_in_turn}
use app_lifecycle_kubernetes.Reconcile.Turns.{IsDue, in_turn}
use app_lifecycle_kubernetes.Startup.{with_resume_pending, resume_text, resume_action, mark_resume}

pending_is_unhandled :
    (now : ℕ) (text action : String) (latest : Policy)
    → is_unhandled (with_resume_pending now text action latest) ≡ false
unfolding with_resume_pending
pending_is_unhandled now text action latest = ground (
  arith,
  str_eq_iff latest.spec.operation_id "",
  str_eq_iff latest.spec.operation_id latest.spec.operation_id,
)

marked-IsDue :
    {W : Type 0} (op : Operator W) (policy latest : Policy) (now : ℕ) (x : W)
    → is_failure_active latest ≡ false
    → op.startup_complete x ≡ true
    → IsDue op
        (with_resume_pending now (resume_text op.client policy) (resume_action policy) latest)
        x
marked-IsDue op policy latest now x calm complete = record {
  is_pending = unfold with_resume_pending in refl;
  startup_done = complete;
  no_failure = unfold with_resume_pending is_failure_active in (unfold is_failure_active in calm);
  no_operation =
      pending_is_unhandled now (resume_text op.client policy) (resume_action policy) latest;
}

-- The startup of a policy that is to be resumed and is not yet leaves its resume due, whatever operation
-- the policy asks for: in every later world in which the startup is complete, the pending resume of the
-- policy as it was marked goes on to the test for its turn, and neither a failure, where none is
-- active, nor a manual operation cancels it. It holds where the policy is read and patched with success.
pub mark_resume-IsDue :
    {W : Type 0} (op : Operator W) (laws : RetryLaws op.client) (policy latest : Policy) (now : ℕ)
    (w v u x : W)
    → is_resumed policy.status.phase ≡ false
    → op.client.get_policy policy.namespace policy.name w ≡ (ok latest, v)
    → let after =
        with_resume_pending now (resume_text op.client policy) (resume_action policy) latest in
      op.client.patch_status latest after v ≡ (ok tt, u)
      → is_failure_active latest ≡ false
      → op.startup_complete x ≡ true
      → (mark_resume op.client policy now w ≡ (ok tt, u))
        × IsDue op after x
        × (pending_resume_stage op after x ≡ resume_in_turn op after x)
unfolding mark_resume
mark_resume-IsDue op laws policy latest now w v u x fresh got patched calm complete =
    let due = marked-IsDue op policy latest now x calm complete in
    (
      rw fresh (patch_latest_lem op.client laws policy latest _ w v u got patched (λ e. cc e)),
      due,
      in_turn op _ x due,
    )

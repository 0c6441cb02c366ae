-- ===== src/Reconcile/Turns.antt =====
-- When a pending startup resume waits.
use app_lifecycle_kubernetes.Base.{
  ℕ, ◌+◌, ◌-◌, ◌<◌, true, false, List, In, ok, some, ◌≡◌, refl, arith, lt→ltb, ◌∙◌,
}
use app_lifecycle_kubernetes.Types.{Policy}
use app_lifecycle_kubernetes.Client.{Client}
use app_lifecycle_kubernetes.Override.{should_skip_operation}
use app_lifecycle_kubernetes.Reconcile.Freezing.{freeze_after_delay, pending_freeze_stage}
use app_lifecycle_kubernetes.Priority.{is_blocked_by_higher_priority_resume}
use app_lifecycle_kubernetes.Priority.Progress.{GoesBefore, is_blocked_by_iff}
use app_lifecycle_kubernetes.Reconcile.Parts.{
  Operator, answer, requeue_after, seconds, is_failure_active,
}
use app_lifecycle_kubernetes.Reconcile.Resuming.{is_unhandled, resume_in_turn, pending_resume_stage}

-- A resume is pending, and neither a failure nor a manual operation cancels it.
pub record IsDue {W : Type 0} (op : Operator W) (p : Policy) (w : W) : Type 0 where
  pub is_pending : p.status.pending_startup_resume ≡ true
  pub startup_done : op.startup_complete w ≡ true
  pub no_failure : is_failure_active p ≡ false
  pub no_operation : is_unhandled p ≡ false

module _ {W : Type 0} (op : Operator W) (p : Policy) where
  -- Before the startup is complete a pending resume changes nothing, and is due again after two seconds.
  pub resume_waits_startup :
      (w : W)
      → p.status.pending_startup_resume ≡ true
      → op.startup_complete w ≡ false
      → pending_resume_stage op p w ≡ (ok (answer (requeue_after (seconds 2))), w)
  unfolding pending_resume_stage
  resume_waits_startup w pending early = simp (pending, early) refl

  pub in_turn : (w : W) → IsDue op p w → pending_resume_stage op p w ≡ resume_in_turn op p w
  unfolding pending_resume_stage
  in_turn w due = simp (due.is_pending, due.startup_done, due.no_failure, due.no_operation) refl

  -- A resume that is due waits ten seconds, and changes nothing, while some other policy in the cluster
  -- that goes before it is still to be resumed.
  pub resume_waits_turn :
      (other : Policy) (ps : List Policy) (w v : W)
      → IsDue op p w
      → op.client.list_policies_uncached w ≡ (ok ps, v)
      → In other ps
      → GoesBefore p other
      → pending_resume_stage op p w ≡ (ok (answer (requeue_after (seconds 10))), v)
  unfolding resume_in_turn is_blocked_by_higher_priority_resume
  resume_waits_turn other ps w v due listed at before =
      in_turn w due ∙ rw (listed, (is_blocked_by_iff p ps).1 (other, at, before)) refl

-- A freeze that is pending and that no operation cancels waits for its delay in the same way.
pub freeze_waits_delay :
    {W : Type 0} (c : Client W) (p : Policy) (w u : W) (started now : ℕ)
    → p.status.pending_freeze ≡ true
    → should_skip_operation p ≡ true
    → p.status.freeze_delay_started_at ≡ some started
    → c.now w ≡ (now, u)
    → now < started + p.spec.freeze_delay
    → (wait : ℕ) × (pending_freeze_stage c p w ≡ (ok (answer (requeue_after wait)), u))
      × (now + wait ≡ started + p.spec.freeze_delay)
unfolding pending_freeze_stage freeze_after_delay
freeze_waits_delay c p w u started now pending handled begun clock early = (
  started + p.spec.freeze_delay - now,
  simp (pending, handled, begun)
      (rw (clock, lt→ltb now (started + p.spec.freeze_delay) early) refl),
  omega arith,
)

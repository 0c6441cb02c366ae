-- ===== src/Watches/Events.antt =====
-- Which status writes make a policy reconciled again.
use app_lifecycle_kubernetes.Base.{
  ℕ, String, Bool, true, false, Option, none, some, [], ◌∷◌, ◌≡◌, refl, arith, str_eq_refl, ◌==◌,
  ◌||◌,
}
use app_lifecycle_kubernetes.Types.{Policy, Phase, AdaptiveProgressStatus, PreConditionsStatus}
use app_lifecycle_kubernetes.Client.{Client}
use app_lifecycle_kubernetes.Progress.{
  with_status, with_pre_conditions, with_progress, with_completion,
}
use app_lifecycle_kubernetes.Reconcile.Parts.{is_newer}
use app_lifecycle_kubernetes.Startup.{with_resume_pending, with_freeze_pending}
use app_lifecycle_kubernetes.Watches.{
  is_reset, is_raised, reconciles_update, is_tracked, with_failure_detected, with_ready_detected,
  note_failure, request,
}

same_time : (t : Option ℕ) → is_reset t t ≡ false
same_time none = refl
same_time (some n) = ground arith

not_newer : (t : Option ℕ) → is_newer t t ≡ false
not_newer none = refl
not_newer (some n) = ground arith

same_flag : (b : Bool) (t : Option ℕ) → is_raised b t b t ≡ false
same_flag true t = rw same_time refl
same_flag false t = refl

same_generation : (n : ℕ) → (n == n) ≡ true
same_generation n = ground arith

self_ignored : (n : ℕ) (p : Policy) → reconciles_update n n p p ≡ false
unfolding reconciles_update
self_ignored n p =
    simp
      (
        same_generation n,
        same_flag p.status.pending_freeze p.status.freeze_delay_started_at,
        same_flag p.status.pending_startup_resume p.status.resume_delay_started_at,
        not_newer p.status.node_ready_event_detected_at,
        not_newer p.status.node_failure_event_detected_at,
      )
      refl

-- The operator's reports do not make the policy reconciled again: the status of an operation, the
-- progress of a resume, its end, and the state of the pre-conditions.
pub reports_are_ignored :
    (generation total size now : ℕ) (p policy : Policy) (phase : Phase) (text : String)
    (is_startup : Bool) (held : AdaptiveProgressStatus) (status : PreConditionsStatus)
    → (reconciles_update generation generation p (with_status policy phase text is_startup p)
        ≡ false)
      × (reconciles_update generation generation p (with_progress held p) ≡ false)
      × (reconciles_update generation generation p (with_completion total size now p) ≡ false)
      × (reconciles_update generation generation p (with_pre_conditions status p) ≡ false)
unfolding reconciles_update with_status with_progress with_completion with_pre_conditions
reports_are_ignored generation total size now p policy phase text is_startup held status = (
  unfold reconciles_update in self_ignored generation p,
  unfold reconciles_update in self_ignored generation p,
  unfold reconciles_update in self_ignored generation p,
  unfold reconciles_update in self_ignored generation p,
)

or_true : (b : Bool) → (b || true) ≡ true
or_true true = refl
or_true false = refl

raised_by :
    (old : Bool) (t : Option ℕ) (now : ℕ)
    → is_reset t (some now) ≡ true
    → is_raised old t true (some now) ≡ true
raised_by true t now h = rw h refl
raised_by false t now h = refl

-- The marks that ask for a run make the policy reconciled, each where its time is a new one: a pending
-- freeze, a pending resume, the failure of a node, and a node that is ready.
pub marks_reconcile :
    (generation now : ℕ) (p : Policy) (text action name : String)
    → is_reset p.status.freeze_delay_started_at (some now) ≡ true
    → is_reset p.status.resume_delay_started_at (some now) ≡ true
    → is_newer (some now) p.status.node_failure_event_detected_at ≡ true
    → is_newer (some now) p.status.node_ready_event_detected_at ≡ true
    → (reconciles_update generation generation p (with_freeze_pending now text p) ≡ true)
      × (reconciles_update generation generation p (with_resume_pending now text action p) ≡ true)
      × (reconciles_update generation generation p (with_failure_detected name now p) ≡ true)
      × (reconciles_update generation generation p (with_ready_detected now p) ≡ true)
unfolding reconciles_update with_freeze_pending with_resume_pending with_failure_detected
    with_ready_detected
marks_reconcile generation now p text action name freeze resume failed ready = (
  simp (raised_by p.status.pending_freeze p.status.freeze_delay_started_at now freeze, or_true)
      refl,
  simp
      (
        raised_by p.status.pending_startup_resume p.status.resume_delay_started_at now resume,
        or_true,
      )
      refl,
  simp (failed, or_true) refl,
  simp (ready, or_true) refl,
)

-- A failure that was noted and not handled since is noted only once: at a second event of the same node
-- the policy is requested, and nothing is written.
pub note_failure_again :
    {W : Type 0} (c : Client W) (name : String) (first second : ℕ) (p : Policy) (w : W)
    → p.spec.handle_node_failure ≡ true
    → is_newer (some first) p.status.node_failure_event_handled_at ≡ true
    → let noted = with_failure_detected name first p in
      note_failure c name second noted w ≡ (request p ∷ [], w)
unfolding note_failure with_failure_detected is_tracked
note_failure_again c name first second p w handles unhandled =
    simp (handles, unhandled, str_eq_refl name) refl

-- ===== src/Reconcile/Manual/Resumed.antt =====
-- A manual resume that ends well, throttled or not, with pre-conditions or without.
pub mod Conditions
use app_lifecycle_kubernetes.Base.Text.{contains}
use app_lifecycle_kubernetes.Types.{
  PreConditionsConfig, Policy, LifecycleAction, AdaptiveThrottlingConfig,
}
use app_lifecycle_kubernetes.Client.{describe, Client}
use app_lifecycle_kubernetes.Base.{
  and_then-ok, Bool, String, true, false, Option, none, some, List, [], ◌∷◌, Result, ok, err, Error,
  ◌≡◌, refl, subst, ap, ◌∙◌, keep, is_some, Every, Bool-cases, inl, inr,
}
use app_lifecycle_kubernetes.Progress.{patch_latest, update_status, update_pre_conditions_status}
use app_lifecycle_kubernetes.PreConditions.Looks.{
  Ended, Ended-onward, check_pre_conditions-Steps, wait_for_pre_conditions-Ended,
}
use app_lifecycle_kubernetes.Throttle.Wired.Steady.{patch_latest-Steps}
use app_lifecycle_kubernetes.Reconcile.Acts.{report_phase, fail_with, after_throttled, resume_now}
use app_lifecycle_kubernetes.Reconcile.Manual.{
  fail_conditions, after_conditions, after_one_check, check_then_resume, resume_checked,
  resume_found, act, act_on_found, run_operation,
}
use app_lifecycle_kubernetes.Reconcile.Manual.Calm.{
  SameStored, QuietOperator, AllDue, AllDue-same, AllReleased, AllReleased-same,
}
use app_lifecycle_kubernetes.Reconcile.Manual.Throttled.{resume_throttled-AllReleased}
use app_lifecycle_kubernetes.Base.Dict.{lookup}
use app_lifecycle_kubernetes.Kube.{Workload}
use app_lifecycle_kubernetes.Workloads.{
  annotation_original_replicas, filter_workloads_requiring_resume,
}
use app_lifecycle_kubernetes.Workloads.Quiet.{IsNoted}
use app_lifecycle_kubernetes.PreConditions.Wait.{enabled_config}
use app_lifecycle_kubernetes.Reconcile.Parts.{
  Operator, Requeue, enabled_throttling, is_aborted, resume_throttled,
}
use app_lifecycle_kubernetes.Reconcile.Manual.Cluster.{QuietCluster}
use app_lifecycle_kubernetes.Reconcile.Manual.Outcome.{
  Listed, run_operation-Listed, moved, moved_sets,
}
use app_lifecycle_kubernetes.Reconcile.Manual.Released.{
  resume_now-AllReleased, finish_manual_resume-world,
}

pub fail_with-answers :
    {W : Type 0} (c : Client W) (policy : Policy) (text : String) (e : Error) (w : W) {r : Requeue}
    {u : W}
    → fail_with c policy text e w ≡ (ok r, u)
    → ⊥
unfolding fail_with
fail_with-answers c policy text e w h = cc h

-- The throttled resume ended with the error that says that another manual operation was asked for, and
-- nothing was done after it.
pub record GaveWay {W : Type 0} (op : Operator W) (policy : Policy)
    (found : List Workload × List Workload) (u : W) : Type 0 where
  pub config : AdaptiveThrottlingConfig
  pub before : W
  pub error : Error
  pub throttled : enabled_throttling policy.spec.adaptive_throttling ≡ some config
  pub stopped : resume_throttled op policy false found config before ≡ (err error, u)
  pub overridden : is_aborted op.client error ≡ true

-- How a resume of the workloads `found`, which were listed in the world `v`, ends well: all of them
-- are stored without the note of a freeze and with the replicas it told, it gave way, or the
-- pre-conditions held it back and nothing that is stored has changed.
pub data ResumeEnds {W : Type 0} (op : Operator W) (quiet : QuietCluster op.client)
    (policy : Policy) (found : List Workload × List Workload) (v u : W) : Type 0 where
  all_released : AllReleased quiet u found → ResumeEnds op quiet policy found v u
  gave_way : GaveWay op policy found u → ResumeEnds op quiet policy found v u
  held_back :
      (config : PreConditionsConfig)
      → enabled_config policy.spec.pre_conditions ≡ some config
      → SameStored quiet v u
      → ResumeEnds op quiet policy found v u

module _ {W : Type 0} (op : Operator W) (quiet : QuietCluster op.client)
    (calm : QuietOperator op quiet) (policy : Policy) where
  -- A resume of workloads that are due.
  module _ (found : List Workload × List Workload) (v : W) (due : AllDue quiet v found) where
    abbrev pub EndsWell : W → Type 0
    EndsWell u = ResumeEnds op quiet policy found v u

    after_throttled-EndsWell :
        (config : AdaptiveThrottlingConfig) (done : Result (Unit {0})) (before w u : W)
        (r : Requeue)
        → SameStored quiet v before
        → enabled_throttling policy.spec.adaptive_throttling ≡ some config
        → resume_throttled op policy false found config before ≡ (done, w)
        → after_throttled op.client policy found done w ≡ (ok r, u)
        → EndsWell u
    unfolding after_throttled
    after_throttled-EndsWell config (ok x) before w u r same on e h = all_released (
        AllReleased-same quiet w u found (finish_manual_resume-world op quiet policy found w u r h)
          (resume_throttled-AllReleased op quiet calm policy config false found before w
            (AllDue-same quiet v before found same due) e))
    after_throttled-EndsWell config (err x) before w u r same on e h =
        elim (Bool-cases (is_aborted op.client x)) [
          | inl y ↦ gave_way (record {
            config = config;
            before = before;
            error = x;
            throttled = on;
            stopped = e ∙ ap (λ t. (err x, t)) (ap (λ t. t.1) (rw y at h));
            overridden = y;
          })
          | inr n ↦ absurd (fail_with-answers op.client policy _ x w (rw n at h))
        ]

    pub resume_now-EndsWell :
        (throttling : Option AdaptiveThrottlingConfig) (w u : W) (r : Requeue)
        → SameStored quiet v w
        → enabled_throttling policy.spec.adaptive_throttling ≡ throttling
        → resume_now op policy found throttling w ≡ (ok r, u)
        → EndsWell u
    unfolding resume_now
    resume_now-EndsWell none w u r same on h = all_released (
        unfold resume_now in
        resume_now-AllReleased op quiet policy calm found w u r
          (AllDue-same quiet v w found same due) h)
    resume_now-EndsWell (some config) w u r same on h =
        after_throttled-EndsWell config _ w _ u r same on refl h

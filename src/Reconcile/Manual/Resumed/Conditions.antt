-- ===== src/Reconcile/Manual/Resumed/Conditions.antt =====
-- A manual resume under pre-conditions, and the manual operation as a whole.
use app_lifecycle_kubernetes.Base.Text.{contains}
use app_lifecycle_kubernetes.Types.{PreConditionsConfig, Policy, LifecycleAction}
use app_lifecycle_kubernetes.Client.{describe, Objects}
use app_lifecycle_kubernetes.Base.{
  and_then-ok, Bool, String, true, false, Option, none, some, List, [], ◌∷◌, Result, ok, err, Error,
  ◌≡◌, refl, sym, ◌∙◌, subst, ap, keep, is_some, Every, Bool-cases, inl, inr,
}
use app_lifecycle_kubernetes.Progress.{patch_latest, update_status, update_pre_conditions_status}
use app_lifecycle_kubernetes.PreConditions.Looks.{
  Ended, Ended-onward, check_pre_conditions-Steps, wait_for_pre_conditions-Ended,
}
use app_lifecycle_kubernetes.Throttle.Wired.Steady.{patch_latest-Steps}
use app_lifecycle_kubernetes.Reconcile.Acts.{report_phase}
use app_lifecycle_kubernetes.Reconcile.Manual.{
  fail_conditions, after_conditions, after_one_check, check_then_resume, resume_checked,
  resume_found, act, act_on_found, run_operation,
}
use app_lifecycle_kubernetes.Reconcile.Manual.Calm.{SameStored, QuietOperator, AllDue}
use app_lifecycle_kubernetes.Workloads.Restored.{Fresh, Pending}
use app_lifecycle_kubernetes.Base.Dict.{lookup}
use app_lifecycle_kubernetes.Kube.{Workload}
use app_lifecycle_kubernetes.Workloads.{
  annotation_original_replicas, filter_workloads_requiring_resume,
}
use app_lifecycle_kubernetes.Workloads.Quiet.{IsNoted, Stored}
use app_lifecycle_kubernetes.PreConditions.Wait.{enabled_config}
use app_lifecycle_kubernetes.Reconcile.Parts.{Operator, Requeue}
use app_lifecycle_kubernetes.Reconcile.Manual.Cluster.{QuietCluster}
use app_lifecycle_kubernetes.Reconcile.Manual.Outcome.{Listed, run_operation-Listed}
use app_lifecycle_kubernetes.Reconcile.Manual.Released.{}
use app_lifecycle_kubernetes.Reconcile.Manual.Resumed.{
  ResumeEnds, all_released, held_back, fail_with-answers, resume_now-EndsWell,
}

-- The listed workloads that the filter keeps are due.
kept_due :
    {W : Type 0} {objects : Objects W Workload} (stored : Stored objects) (w : W)
    (ws : List Workload)
    → Every (Fresh stored w) ws
    → Every
        (λ x. IsNoted x × Pending stored w x)
        (keep (λ x. is_some (lookup annotation_original_replicas x.annotations)) ws)
kept_due stored w [] h = tt
kept_due stored w (x ∷ ws) (fresh, h) =
    elim (Bool-cases (is_some (lookup annotation_original_replicas x.annotations))) [
      | inl y ↦ rw y ((y, inl fresh), kept_due stored w ws h)
      | inr n ↦ rw n (kept_due stored w ws h)
    ]

module _ {W : Type 0} (op : Operator W) (quiet : QuietCluster op.client)
    (calm : QuietOperator op quiet) (policy : Policy) where
  -- A resume of workloads that are due.
  module _ (found : List Workload × List Workload) (v : W) (due : AllDue quiet v found) where
    module _ (config : PreConditionsConfig)
        (is_on : enabled_config policy.spec.pre_conditions ≡ some config) where
      -- The pre-conditions hold the resume back in a world where the same is stored.
      held : (w u : W) → SameStored quiet v w → w ≡ u → ResumeEnds op quiet policy found v u
      held w u same e = held_back config is_on (subst (SameStored quiet v) e same)

      fail_conditions-EndsWell :
          (e : Error) (w u : W) (r : Requeue)
          → SameStored quiet v w
          → fail_conditions op.client policy e w ≡ (ok r, u)
          → ResumeEnds op quiet policy found v u
      unfolding fail_conditions report_phase update_status
      fail_conditions-EndsWell e w u r same h =
          elim (Bool-cases (contains "timeout" (describe op.client e))) [
            | inl y ↦
                held _ u (calm.steady.onward v w _ same (patch_latest-Steps calm.steady policy _ w))
                  (ap (λ t. t.1) (rw y at h))
            | inr n ↦ absurd (fail_with-answers op.client policy _ e w (rw n at h))
          ]

      after_conditions-EndsWell :
          (ended : Option (Result (Unit {0}) × W)) (w u : W) (r : Requeue)
          → Ended calm.steady calm.looking v ended
          → after_conditions op policy found w ended ≡ (ok r, u)
          → ResumeEnds op quiet policy found v u
      unfolding after_conditions
      after_conditions-EndsWell none w u r same h = cc h
      after_conditions-EndsWell (some (ok x, w₁)) w u r same h =
          resume_now-EndsWell op quiet calm policy found v due _ w₁ u r same refl h
      after_conditions-EndsWell (some (err e, w₁)) w u r same h =
          elim (Bool-cases (contains "cancelled" (describe op.client e))) [
            | inl y ↦ held w₁ u same (ap (λ t. t.1) (rw y at h))
            | inr n ↦ fail_conditions-EndsWell e w₁ u r same (rw n at h)
          ]

      after_one_check-EndsWell :
          (checked : Result (Bool × String)) (w u : W) (r : Requeue)
          → SameStored quiet v w
          → after_one_check op policy found config checked w ≡ (ok r, u)
          → ResumeEnds op quiet policy found v u
      unfolding after_one_check update_pre_conditions_status
      after_one_check-EndsWell (err e) w u r same h = fail_conditions-EndsWell e w u r same h
      after_one_check-EndsWell (ok (false, text)) w u r same h =
          let w₁ = (op.client.now w).1 in
          held _ u
            (calm.steady.onward v w₁ _ (calm.steady.onward v w w₁ same (calm.steady.now_goes w))
              (patch_latest-Steps calm.steady policy _ w₁))
            (ap (λ t. t.1) h)
      after_one_check-EndsWell (ok (true, text)) w u r same h =
          let w₁ = (op.client.now w).1 in
          resume_now-EndsWell op quiet calm policy found v due _ _ u r
            (calm.steady.onward v w₁ _ (calm.steady.onward v w w₁ same (calm.steady.now_goes w))
              (patch_latest-Steps calm.steady policy _ w₁))
            refl h

      check_then_resume-EndsWell :
          (blocks : Bool) (w u : W) (r : Requeue)
          → SameStored quiet v w
          → check_then_resume op policy found config blocks w ≡ (ok r, u)
          → ResumeEnds op quiet policy found v u
      unfolding check_then_resume
      check_then_resume-EndsWell true w u r same h =
          after_conditions-EndsWell _ w u r
            (Ended-onward calm.steady calm.looking v w _ same
              (wait_for_pre_conditions-Ended calm.steady calm.looking policy false op.wait_fuel w))
            h
      check_then_resume-EndsWell false w u r same h =
          after_one_check-EndsWell _ _ u r
            (calm.steady.onward v w _ same
              (check_pre_conditions-Steps calm.steady calm.looking policy w))
            h

    resume_checked-EndsWell :
        (conditions : Option PreConditionsConfig) (u : W) (r : Requeue)
        → enabled_config policy.spec.pre_conditions ≡ conditions
        → resume_checked op policy found conditions v ≡ (ok r, u)
        → ResumeEnds op quiet policy found v u
    unfolding resume_checked update_status
    resume_checked-EndsWell none u r is_on h =
        resume_now-EndsWell op quiet calm policy found v due _ v u r (calm.steady.stays v) refl h
    resume_checked-EndsWell (some config) u r is_on h =
        let (x, w, e, h₁) = and_then-ok (patch_latest op.client policy _ v) _ h in
        check_then_resume-EndsWell config is_on _ w u r
          (subst (λ t. SameStored quiet v t.1) e (patch_latest-Steps calm.steady policy _ v)) h₁

  resume_found-EndsWell :
      (found : List Workload × List Workload) (w u : W) (r : Requeue)
      → AllDue quiet w found
      → resume_found op policy found w ≡ (ok r, u)
      → ResumeEnds op quiet policy found w u
  unfolding resume_found
  resume_found-EndsWell ([], []) w u r due h = all_released (tt, tt)
  resume_found-EndsWell ([], s ∷ ss) w u r due h =
      resume_checked-EndsWell ([], s ∷ ss) w due _ u r refl h
  resume_found-EndsWell (d ∷ ds, ss) w u r due h =
      resume_checked-EndsWell (d ∷ ds, ss) w due _ u r refl h

  act_on_found-EndsWell :
      (ds ss : List Workload) (w u : W) (r : Requeue)
      → policy.spec.action ≡ LifecycleAction.resume
      → AllDue quiet w (filter_workloads_requiring_resume ds ss)
      → act_on_found op policy ds ss w ≡ (ok r, u)
      → ResumeEnds op quiet policy (filter_workloads_requiring_resume ds ss) w u
  unfolding act_on_found act filter_workloads_requiring_resume
  act_on_found-EndsWell [] [] w u r asked due h = all_released (tt, tt)
  act_on_found-EndsWell [] (s ∷ ss) w u r asked due h =
      resume_found-EndsWell (filter_workloads_requiring_resume [] (s ∷ ss)) w u r due
        (subst (λ a. act op policy [] (s ∷ ss) a w ≡ (ok r, u)) asked h)
  act_on_found-EndsWell (d ∷ ds) ss w u r asked due h =
      resume_found-EndsWell (filter_workloads_requiring_resume (d ∷ ds) ss) w u r due
        (subst (λ a. act op policy (d ∷ ds) ss a w ≡ (ok r, u)) asked h)

  -- What a manual operation lists and the filter keeps is due.
  Listed-AllDue :
      (ds ss : List Workload) (listed : Listed op.client policy ds ss)
      → AllDue quiet listed.after (filter_workloads_requiring_resume ds ss)
  unfolding filter_workloads_requiring_resume
  Listed-AllDue ds ss listed =
      let ns = policy.spec.target_namespace in
      let sel = policy.spec.selector in
      let same : quiet.deployments.at listed.after ≡ quiet.deployments.at listed.between =
        sym (ap (λ t. quiet.deployments.at t.1) listed.stateful_sets_listed)
        ∙ calm.list_sets_keeps ns sel listed.between in
      (
        kept_due quiet.deployments listed.after ds (
            subst (λ see. Every (λ x. see x.namespace x.name ≡ some x) ds) (sym same)
              (calm.list_fresh ns sel listed.before listed.between ds listed.deployments_listed)),
        kept_due quiet.stateful_sets listed.after ss (
            calm.list_sets_fresh ns sel listed.between listed.after ss listed.stateful_sets_listed),
      )

  pub run_operation-EndsWell :
      (w u : W) (r : Requeue)
      → policy.spec.action ≡ LifecycleAction.resume
      → run_operation op policy w ≡ (ok r, u)
      → (ds : List Workload) × (ss : List Workload) × (listed : Listed op.client policy ds ss)
        × ResumeEnds op quiet policy (filter_workloads_requiring_resume ds ss) listed.after u
  run_operation-EndsWell w u r asked h =
      let (ds, ss, listed, h₁) = run_operation-Listed op policy w u r h in
      (
        ds,
        ss,
        listed,
        act_on_found-EndsWell ds ss listed.after u r asked (Listed-AllDue ds ss listed) h₁,
      )

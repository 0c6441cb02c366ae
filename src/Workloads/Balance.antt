-- ===== src/Workloads/Balance.antt =====
-- Balancing the pods after a resume: `shouldPerformBalancing`, `performBalancing` and the rolling
-- restarts of internal/controller/namespacelifecyclepolicy_controller.go.
use app_lifecycle_kubernetes.Base.{
  ℕ, ◌*◌, ◌-◌, ◌+◌, ◌<◌, String, Bool, true, false, Option, none, some, List, [], ◌∷◌, Action, ok,
  logged, ◌>>=◌, ◌>>◌, ltb, default_if_zero, ◌≡◌, ◌↔◌, refl, arith,
}
use app_lifecycle_kubernetes.Base.Int.{ℤ}
use app_lifecycle_kubernetes.Base.Dict.{insert}
use app_lifecycle_kubernetes.Types.{Policy}
use app_lifecycle_kubernetes.Kube.{Workload}
use app_lifecycle_kubernetes.Client.{Client, Objects}
use app_lifecycle_kubernetes.Workloads.{restored_form}

abbrev elapsed_within : Option ℕ → ℕ → ℕ → Bool
elapsed_within none now window = false
elapsed_within (some at) now window = ltb (now - at) window

-- The window in nanoseconds, ten minutes where it is not set.
abbrev pub window : Policy → ℕ
window policy = default_if_zero 600000000000 (policy.spec.balance_window_seconds * 1000000000)

-- `shouldPerformBalancing` at a time.
unfoldable pub should_perform_balancing : Policy → ℕ → Bool
should_perform_balancing policy now =
    elapsed_within policy.status.last_resume_at now (window policy)

-- The object with a new restart timestamp on its pod template.
unfoldable pub restarted_form : String → Workload → Workload
restarted_form timestamp w = record w {
  template_annotations = insert "apps.ops.dev/restart-timestamp" timestamp w.template_annotations;
}

-- `triggerRollingRestart` and `triggerRollingRestartSts`: no read and no retry.
unfoldable pub trigger_rolling_restart :
    {W : Type 0} → Client W → Objects W Workload → Workload → Action W (Unit {0})
unfolding restarted_form
trigger_rolling_restart c objects x w =
    let (now, w₁) = c.now w in objects.patch x (restarted_form (c.format_time now) x) w₁

-- The loop over one kind, which logs failures.
unfoldable pub restart_all : {W : Type 0} → Client W → Objects W Workload → List Workload → W → W
unfolding trigger_rolling_restart
restart_all c objects [] w = w
restart_all c objects (x ∷ rest) w =
    restart_all c objects rest (logged (trigger_rolling_restart c objects x) w)

abbrev done_after : {W : Type 0} → (W → W) → Action W (Unit {0})
done_after f w = (ok tt, f w)

unfoldable pub perform_balancing : {W : Type 0} → Client W → Policy → Action W (Unit {0})
unfolding restart_all
perform_balancing c policy = do
  deployments ← c.deployments.list policy.spec.target_namespace policy.spec.selector
  done_after (restart_all c c.deployments deployments)
  stateful_sets ← c.stateful_sets.list policy.spec.target_namespace policy.spec.selector
  done_after (restart_all c c.stateful_sets stateful_sets)

-- Balancing is due exactly in the window after a resume.
pub should_perform_balancing_iff :
    (policy : Policy) (now at : ℕ)
    → policy.status.last_resume_at ≡ some at
    → (should_perform_balancing policy now ≡ true) ↔ (now < at + window policy)
unfolding should_perform_balancing
should_perform_balancing_iff policy now at e = ground (arith, e)

-- A rolling restart does not touch what a freeze notes and a resume restores: it goes the same way
-- before a freeze and after the resume.
pub restored_form-restarted_form :
    (timestamp : String) (w : Workload) (count : ℤ)
    → restored_form count (restarted_form timestamp w)
      ≡ restarted_form timestamp (restored_form count w)
unfolding restored_form restarted_form
restored_form-restarted_form timestamp w count = refl

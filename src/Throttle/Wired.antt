-- ===== src/Throttle/Wired.antt =====
-- The loop of `resumeWithAdaptiveThrottling` with the operations that the source calls: the world is
-- the reconciler's cache of node metrics and the cluster.
pub mod Returns
pub mod Steady
use app_lifecycle_kubernetes.Base.{
  ℕ, ◌-◌, String, Bool, true, false, Option, none, some, List, Result, ok, err, Action, Error,
  logged,
}
use app_lifecycle_kubernetes.Types.{Policy, Signal, node_not_ready, AdaptiveThrottlingConfig}
use app_lifecycle_kubernetes.Client.{Client}
use app_lifecycle_kubernetes.Override.{check_manual_override}
use app_lifecycle_kubernetes.Workloads.{resume_deployment, resume_stateful_set}
use app_lifecycle_kubernetes.Progress.{update_adaptive_progress, complete_progress}
use app_lifecycle_kubernetes.Signals.Collect.{
  NodeMetricsCache, Found, Scrape, collect_signals, lift,
}
use app_lifecycle_kubernetes.Throttle.Clear.{wait_for_signal_clear}
use app_lifecycle_kubernetes.Throttle.Resume.{Services}

abbrev pub signals_of : {V : Type 0} → Result Found × V → Result (List Signal) × V
signals_of (ok found, v) = (ok found.0, v)
signals_of (err e, v) = (err e, v)

abbrev on_world : {C W : Type 0} → (W → W) → C × W → C × W
on_world f (cache, w) = (cache, f w)

abbrev report_at :
    {W : Type 0} → Client W → Policy → (resumed total size : ℕ) → List Signal → String → W → W
report_at c policy resumed total size signals text w =
    let (now, w₁) = c.now w in
    logged (update_adaptive_progress c policy resumed total size signals now text) w₁

unfoldable pub operator_services :
    {W : Type 0}
    → Client W
    → Scrape W
    → Policy
    → AdaptiveThrottlingConfig
    → Bool
    → (start wait_fuel : ℕ) → Services (NodeMetricsCache × W)
operator_services c scrape policy config is_startup start wait_fuel = record {
  override = lift (check_manual_override c policy is_startup);
  collect = λ v. signals_of (collect_signals c scrape (some config) policy.spec.target_namespace v);
  context_error = λ v. c.context_error v.1;
  wait_ready =
      wait_for_signal_clear c scrape config policy.spec.target_namespace node_not_ready start
        wait_fuel;
  report = λ resumed total size signals text.
      on_world (report_at c policy resumed total size signals text);
  resume_deployment = λ d. lift (resume_deployment c d);
  resume_stateful_set = λ s. lift (resume_stateful_set c s);
  sleep = λ n. on_world (c.sleep n);
  complete = λ total size. on_world (logged (complete_progress c policy total size));
}

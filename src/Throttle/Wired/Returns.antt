-- ===== src/Throttle/Wired/Returns.antt =====
-- The resume of a policy returns.
use app_lifecycle_kubernetes.Base.{
  ℕ, ◌+◌, ◌-◌, ◌*◌, ◌≤◌, ◌<◌, String, Bool, true, some, List, Result, ◌≡◌, arith, length,
}
use app_lifecycle_kubernetes.Types.{Policy, node_not_ready, AdaptiveThrottlingConfig}
use app_lifecycle_kubernetes.Client.{Client}
use app_lifecycle_kubernetes.Signals.Collect.{NodeMetricsCache, Scrape}
use app_lifecycle_kubernetes.Throttle.{second}
use app_lifecycle_kubernetes.Throttle.Clear.{max_wait_time}
use app_lifecycle_kubernetes.Throttle.Clear.Ends.{
  wait_for_signal_clear-Moved, wait_for_signal_clear_answers,
}
use app_lifecycle_kubernetes.Kube.{Workload}
use app_lifecycle_kubernetes.Workloads.{resume_deployment, resume_stateful_set}
use app_lifecycle_kubernetes.Throttle.Wired.Steady.{
  Ticking, check_manual_override-Steps, report_at-Goes, resume_noted-Steps,
}
use app_lifecycle_kubernetes.Throttle.Wired.Steady.Checks.{signals-Goes}
use app_lifecycle_kubernetes.Throttle.Resume.{
  deployment, stateful_set, Services, WorkloadItem, resume_item, resume_with_adaptive_throttling,
}
use app_lifecycle_kubernetes.Throttle.Resume.Advance.{Patience}
use app_lifecycle_kubernetes.Throttle.Resume.Ends.{resume_returns}
use app_lifecycle_kubernetes.Throttle.Wired.{operator_services}

-- The calls on the workloads do not turn the clock back either.
pub record Onward {W : Type 0} {c : Client W} {scrape : Scrape W} (clock : Ticking c scrape)
    : Type 0 where
  pub get_onward :
      (ns name : String) (w : W) → clock.reads w ≤ clock.reads (c.deployments.get ns name w).1
  pub patch_onward :
      (before after : Workload) (w : W)
      → clock.reads w ≤ clock.reads (c.deployments.patch before after w).1
  pub get_set_onward :
      (ns name : String) (w : W) → clock.reads w ≤ clock.reads (c.stateful_sets.get ns name w).1
  pub patch_set_onward :
      (before after : Workload) (w : W)
      → clock.reads w ≤ clock.reads (c.stateful_sets.patch before after w).1

less : (a b start limit : ℕ) → a - start < limit → a < b → start + limit - b < start + limit - a
less a b start limit h k = omega arith

module _ {W : Type 0} (c : Client W) (scrape : Scrape W) (policy : Policy)
    (config : AdaptiveThrottlingConfig) (clock : Ticking c scrape) (is_startup : Bool)
    (start wait_fuel : ℕ) where
  abbrev services : Services (NodeMetricsCache × W)
  services = operator_services c scrape policy config is_startup start wait_fuel

  abbrev time_left : NodeMetricsCache × W → ℕ
  time_left v = start + max_wait_time config * second - clock.reads v.1

  wait_takes :
      (v u : NodeMetricsCache × W)
      → services.wait_ready v ≡ some (true, u)
      → time_left u < time_left v
  unfolding operator_services
  wait_takes v u e =
      let moved : (clock.reads v.1 - start < max_wait_time config * second)
          × (clock.reads v.1 < clock.reads u.1) =
        wait_for_signal_clear-Moved c scrape config policy.spec.target_namespace clock
          node_not_ready start wait_fuel v u e in
      less (clock.reads v.1) (clock.reads u.1) start (max_wait_time config * second) moved.0 moved.1

  item_goes_on :
      Onward clock
      → (item : WorkloadItem) (v : NodeMetricsCache × W)
      → clock.reads v.1 ≤ clock.reads (resume_item services item v).1.1
  unfolding operator_services resume_item resume_deployment resume_stateful_set
  item_goes_on on (deployment x) (cache, w) =
      resume_noted-Steps clock.steady c.deployments on.get_onward on.patch_onward _ x w
  item_goes_on on (stateful_set x) (cache, w) =
      resume_noted-Steps clock.steady c.stateful_sets on.get_set_onward on.patch_set_onward _ x w

  patience : Onward clock → Patience services
  unfolding operator_services
  patience on = record {
    left = time_left;
    override_keeps =
        λ v. omega (arith, check_manual_override-Steps clock.steady policy is_startup v);
    collect_keeps =
        λ v. omega (arith, signals-Goes clock.steady config policy.spec.target_namespace v);
    report_keeps = λ resumed total size signals text v.
        omega (arith, report_at-Goes clock.steady policy resumed total size signals text v.1);
    sleep_keeps = λ n v. omega (arith, clock.steady.sleep_goes n v.1);
    resume_keeps = λ item v. omega (arith, item_goes_on on item v);
    limit = wait_fuel;
    wait_answers = λ v h.
        wait_for_signal_clear_answers c scrape config policy.spec.target_namespace clock
          node_not_ready start wait_fuel v h;
    wait_takes = wait_takes;
  }

-- Where no call turns the clock back and a tick moves it on, the resume of a policy returns, and every
-- wait for ready nodes in it, whatever the nodes do: fuel above the number of workloads and what is left
-- of the longest wait, in nanoseconds, is enough for the loop, and no less for the waits.
pub operator_resume_returns :
    {W : Type 0} (c : Client W) (scrape : Scrape W) (policy : Policy)
    (config : AdaptiveThrottlingConfig) (clock : Ticking c scrape) (is_startup : Bool)
    (start wait_fuel : ℕ) (workloads : List WorkloadItem) (fuel : ℕ) (v : NodeMetricsCache × W)
    → Onward clock
    → start + max_wait_time config * second - clock.reads v.1 + length workloads < fuel
    → fuel ≤ wait_fuel
    → (a : Result (Unit {0}) × (NodeMetricsCache × W)) × (resume_with_adaptive_throttling
          (operator_services c scrape policy config is_startup start wait_fuel)
          config
          workloads
          fuel
          v
        ≡ some a)
operator_resume_returns c scrape policy config clock is_startup start wait_fuel workloads fuel v on
      h l =
    resume_returns (operator_services c scrape policy config is_startup start wait_fuel)
      (patience c scrape policy config clock is_startup start wait_fuel on) config workloads fuel v
      (unfold patience in omega arith) (unfold patience in l)

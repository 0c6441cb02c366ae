-- ===== src/Throttle/Wired/Steady.antt =====
-- What the calls of a throttled resume leave alone, told by a relation between worlds that the single
-- calls keep to. The resumes themselves are not among them.
pub mod Checks
pub mod Waits
use app_lifecycle_kubernetes.Base.{
  ℕ, zero, suc, ◌-◌, ◌*◌, String, Bool, true, false, Option, none, some, List, [], Action, Result,
  ok, err, pure, and_then, ◌>>=◌, wrapping, ltb, if◌then◌else◌, Option-cases, Bool-cases, inl, inr,
  is_some, ◌≤◌, ◌<◌, ◌≡◌,
}
use app_lifecycle_kubernetes.Base.Dict.{Dict, lookup}
use app_lifecycle_kubernetes.Types.{
  Policy, Signal, SignalType, AdaptiveThrottlingConfig, SignalChecksConfig, NodeReadyCheckConfig,
  NodePressureCheckConfig, PendingPodsCheckConfig, NodeUsageCheckConfig,
  ContainerRestartsCheckConfig, MetricsScrapeConfig,
}
use app_lifecycle_kubernetes.Client.{Client, Objects}
use app_lifecycle_kubernetes.Override.{check_manual_override}
use app_lifecycle_kubernetes.Progress.{patch_latest, update_adaptive_progress, complete_progress}
use app_lifecycle_kubernetes.Signals.{
  no_metrics, check_node_readiness, check_node_pressure, check_pending_pods,
  check_container_restarts,
}
use app_lifecycle_kubernetes.Signals.Collect.{
  NodeMetricsCache, Usage, Found, Scrape, with_ttl, cache_get, lift, keep_usage, or_scrape,
  read_usage, add_readiness, add_pressure, add_pending, add_usage, add_restarts, run_checks,
  collect_signals,
}
use app_lifecycle_kubernetes.Throttle.{second}
use app_lifecycle_kubernetes.Throttle.Clear.{
  max_wait_time, wait_interval, look, wait_loop, wait_for_signal_clear,
}
use app_lifecycle_kubernetes.Throttle.Wired.{signals_of, report_at}
use app_lifecycle_kubernetes.Base.Int.{ℤ}
use app_lifecycle_kubernetes.Base.Decimal.{atoi}
use app_lifecycle_kubernetes.Kube.{Workload}
use app_lifecycle_kubernetes.Workloads.{
  annotation_original_replicas, restored_form, resume_once, resume_counted, resume_noted,
}

-- The single calls keep to a relation. A retried call does where each run of it does.
pub record Steady {W : Type 0} (c : Client W) (scrape : Scrape W) (Goes : W → W → Type 0)
    : Type 0 where
  pub stays : (w : W) → Goes w w
  pub onward : (w v u : W) → Goes w v → Goes v u → Goes w u
  pub retry_goes :
      (f : Action W (Unit {0}))
      → ((w : W) → Goes w (f w).1)
      → (w : W) → Goes w (c.retry_on_conflict f w).1
  pub now_goes : (w : W) → Goes w (c.now w).1
  pub sleep_goes : (n : ℕ) (w : W) → Goes w (c.sleep n w)
  pub tick_goes : (n : ℕ) (w : W) → Goes w (c.tick n w).1
  pub get_policy_goes : (ns name : String) (w : W) → Goes w (c.get_policy ns name w).1
  pub patch_status_goes : (p q : Policy) (w : W) → Goes w (c.patch_status p q w).1
  pub list_nodes_goes :
      (selector : Option (Dict String)) (w : W) → Goes w (c.list_nodes selector w).1
  pub list_pods_goes : (ns : Option String) (w : W) → Goes w (c.list_pods ns w).1
  pub scrape_goes :
      (selector : Option (Dict String)) (cpu memory : ℕ) (source : Option MetricsScrapeConfig)
      (w : W)
      → Goes w (scrape selector cpu memory source w).1

-- A clock that no call turns back and that a tick moves on; `reads` is its value.
pub record Ticking {W : Type 0} (c : Client W) (scrape : Scrape W) : Type 0 where
  pub reads : W → ℕ
  pub now_reads : (w : W) → (c.now w).0 ≡ reads w
  pub tick_moves : (n : ℕ) (w : W) → (c.tick n w).0 ≡ true → reads w < reads (c.tick n w).1
  pub steady : Steady c scrape (λ w u. reads w ≤ reads u)

-- An action keeps to the relation on the part `see` of what it acts on.
abbrev pub Steps : {W : Type 0} → (W → W → Type 0) → {V A : Type 0} → (V → W) → Action V A → Type 0
Steps Goes see m = (v : _) → Goes (see v) (see (m v).1)

abbrev pub plain : {W : Type 0} → W → W
plain w = w

abbrev pub cached : {W : Type 0} → NodeMetricsCache × W → W
cached v = v.1

module _ {W : Type 0} {c : Client W} {scrape : Scrape W} {Goes : W → W → Type 0}
    (st : Steady c scrape Goes) where
  and_then-Goes :
      {V A B : Type 0} (see : V → W) (r : Result A × V) (f : A → Action V B) (w : W)
      → Goes w (see r.1)
      → ((a : A) → Steps Goes see (f a))
      → Goes w (see (and_then r f).1)
  and_then-Goes see (ok a, v) f w h k = st.onward w (see v) _ h (k a v)
  and_then-Goes see (err e, v) f w h k = h

  pub bind-Steps :
      {V A B : Type 0} (see : V → W) (m : Action V A) (f : A → Action V B)
      → Steps Goes see m
      → ((a : A) → Steps Goes see (f a))
      → Steps Goes see (m >>= f)
  bind-Steps see m f h k v = and_then-Goes see (m v) f (see v) (h v) k

  -- A call and a function of what it answers.
  pub call-Steps :
      {V A B : Type 0} (see : V → W) (m : Action V A) (f : A → B)
      → Steps Goes see m
      → Steps Goes see (m >>= λ a. pure (f a))
  call-Steps see m f h = bind-Steps see m (λ a. pure (f a)) h (λ a v. st.stays (see v))

  pub if-Steps :
      {V A : Type 0} (see : V → W) (b : Bool) (m n : Action V A)
      → Steps Goes see m
      → Steps Goes see n
      → Steps Goes see (if b then m else n)
  if-Steps see true m n h k = h
  if-Steps see false m n h k = k

  pub lift-Steps : {A : Type 0} (m : Action W A) → Steps Goes plain m → Steps Goes cached (lift m)
  lift-Steps m h (cache, w) = h w

  pub check_manual_override-Steps :
      (policy : Policy) (is_startup : Bool)
      → Steps Goes cached (lift (check_manual_override c policy is_startup))
  unfolding check_manual_override
  check_manual_override-Steps policy is_startup =
      lift-Steps (check_manual_override c policy is_startup) (
        call-Steps plain (wrapping _ (c.get_policy policy.namespace policy.name)) _
          (st.get_policy_goes policy.namespace policy.name))

  pub patch_latest-Steps :
      (policy : Policy) (change : Policy → Policy) → Steps Goes plain (patch_latest c policy change)
  unfolding patch_latest
  patch_latest-Steps policy change = st.retry_goes _ (
      bind-Steps plain (c.get_policy policy.namespace policy.name) _
        (st.get_policy_goes policy.namespace policy.name)
        (λ latest. st.patch_status_goes latest (change latest)))

  pub report_at-Goes :
      (policy : Policy) (resumed total size : ℕ) (signals : List Signal) (text : String) (w : W)
      → Goes w (report_at c policy resumed total size signals text w)
  unfolding update_adaptive_progress
  report_at-Goes policy resumed total size signals text w =
      st.onward w (c.now w).1 _ (st.now_goes w) (patch_latest-Steps policy _ (c.now w).1)

  pub complete_progress-Steps :
      (policy : Policy) (total size : ℕ) → Steps Goes plain (complete_progress c policy total size)
  unfolding complete_progress
  complete_progress-Steps policy total size w =
      st.onward w (c.now w).1 _ (st.now_goes w) (patch_latest-Steps policy _ (c.now w).1)

  -- The resume of a workload, where its own calls keep to the relation too.
  module _ (objects : Objects W Workload)
      (get_goes : (ns name : String) → Steps Goes plain (objects.get ns name))
      (patch_goes : (before after : Workload) → Steps Goes plain (objects.patch before after)) where
    resume_counted-Steps :
        (count : Option ℤ) (x : Workload) → Steps Goes plain (resume_counted c objects count x)
    unfolding resume_counted resume_once
    resume_counted-Steps none x = λ w. st.stays w
    resume_counted-Steps (some count) x = st.retry_goes _ (
        bind-Steps plain (objects.get x.namespace x.name) _ (get_goes x.namespace x.name) (λ z.
          if-Steps plain (is_some (lookup annotation_original_replicas z.annotations)) _ _
            (patch_goes z (restored_form count z)) st.stays))

    pub resume_noted-Steps :
        (note : Option String) (x : Workload) → Steps Goes plain (resume_noted c objects note x)
    unfolding resume_noted
    resume_noted-Steps none x = λ w. st.stays w
    resume_noted-Steps (some note) x = resume_counted-Steps (atoi note) x

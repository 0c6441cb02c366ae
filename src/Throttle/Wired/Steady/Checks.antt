-- ===== src/Throttle/Wired/Steady/Checks.antt =====
-- The collection of the signals, by the calls that it makes.
use app_lifecycle_kubernetes.Base.{
  ℕ, String, Option, none, some, List, [], Action, Result, ok, err, pure, ◌>>=◌, wrapping,
}
use app_lifecycle_kubernetes.Base.Dict.{Dict}
use app_lifecycle_kubernetes.Types.{
  AdaptiveThrottlingConfig, SignalChecksConfig, NodeReadyCheckConfig, NodePressureCheckConfig,
  PendingPodsCheckConfig, NodeUsageCheckConfig, ContainerRestartsCheckConfig,
}
use app_lifecycle_kubernetes.Client.{Client}
use app_lifecycle_kubernetes.Signals.{
  no_metrics, check_node_readiness, check_node_pressure, check_pending_pods,
  check_container_restarts,
}
use app_lifecycle_kubernetes.Signals.Collect.{
  NodeMetricsCache, Usage, Found, Scrape, with_ttl, cache_get, lift, keep_usage, or_scrape,
  read_usage, add_readiness, add_pressure, add_pending, add_usage, add_restarts, run_checks,
  collect_signals,
}
use app_lifecycle_kubernetes.Throttle.Clear.{}
use app_lifecycle_kubernetes.Throttle.Wired.{signals_of}
use app_lifecycle_kubernetes.Throttle.Wired.Steady.{
  Steady, Steps, plain, cached, bind-Steps, call-Steps, if-Steps, lift-Steps,
}

module _ {W : Type 0} {c : Client W} {scrape : Scrape W} {Goes : W → W → Type 0}
    (st : Steady c scrape Goes) where
  keep_usage-Goes :
      (cache : NodeMetricsCache) (r : Result Usage × W) (w : W)
      → Goes w r.1
      → Goes w (keep_usage c scrape cache r).1.1
  keep_usage-Goes cache (err e, v) w h = h
  keep_usage-Goes cache (ok usage, v) w h = st.onward w v _ h (st.now_goes v)

  or_scrape-Steps :
      (o : Option Usage) (m : Action W Usage)
      → Steps Goes plain m
      → Steps Goes cached (or_scrape c scrape o m)
  or_scrape-Steps (some usage) m h (cache, w) = st.stays w
  or_scrape-Steps none m h (cache, w) = keep_usage-Goes cache (m w) w (h w)

  read_usage-Steps :
      (config : AdaptiveThrottlingConfig) (check : NodeUsageCheckConfig)
      → Steps Goes cached (read_usage c scrape config check)
  unfolding read_usage
  read_usage-Steps config check (cache, w) = st.onward w (c.now w).1 _ (st.now_goes w) (
      or_scrape-Steps (cache_get (with_ttl config cache) (c.now w).0) _
        (st.scrape_goes config.node_selector check.cpu_threshold_percent
          check.memory_threshold_percent check.scrape)
        (with_ttl config cache, (c.now w).1))

  check_node_readiness-Steps :
      (selector : Option (Dict String)) → Steps Goes plain (check_node_readiness c selector)
  unfolding check_node_readiness
  check_node_readiness-Steps selector =
      call-Steps st plain (c.list_nodes _) _ (st.list_nodes_goes _)

  check_node_pressure-Steps :
      (selector : Option (Dict String)) (types : List String)
      → Steps Goes plain (check_node_pressure c selector types)
  unfolding check_node_pressure
  check_node_pressure-Steps selector types =
      call-Steps st plain (c.list_nodes _) _ (st.list_nodes_goes _)

  check_pending_pods-Steps : (threshold : ℕ) → Steps Goes plain (check_pending_pods c threshold)
  unfolding check_pending_pods
  check_pending_pods-Steps threshold = call-Steps st plain (c.list_pods _) _ (st.list_pods_goes _)

  check_container_restarts-Steps :
      (namespace : String) (threshold : ℕ)
      → Steps Goes plain (check_container_restarts c namespace threshold)
  unfolding check_container_restarts
  check_container_restarts-Steps namespace threshold =
      call-Steps st plain (c.list_pods _) _ (st.list_pods_goes _)

  -- A check whose error is wrapped, and what its answer adds.
  checked-Steps :
      {A B : Type 0} (text : String) (m : Action W A) (f : A → B)
      → Steps Goes plain m
      → Steps Goes cached (lift (wrapping text m) >>= λ a. pure (f a))
  checked-Steps text m f h =
      call-Steps st cached (lift (wrapping text m)) f (lift-Steps st (wrapping text m) h)

  add_readiness-Steps :
      (config : AdaptiveThrottlingConfig) (check : Option NodeReadyCheckConfig) (found : Found)
      → Steps Goes cached (add_readiness c scrape config check found)
  unfolding add_readiness
  add_readiness-Steps config none found = λ v. st.stays v.1
  add_readiness-Steps config (some check) (signals, metrics) =
      if-Steps st cached check.enabled _ _
        (checked-Steps "failed to check node readiness"
          (check_node_readiness c config.node_selector) _
          (check_node_readiness-Steps config.node_selector))
        (λ v. st.stays v.1)

  add_pressure-Steps :
      (config : AdaptiveThrottlingConfig) (check : Option NodePressureCheckConfig) (found : Found)
      → Steps Goes cached (add_pressure c scrape config check found)
  unfolding add_pressure
  add_pressure-Steps config none found = λ v. st.stays v.1
  add_pressure-Steps config (some check) (signals, metrics) =
      if-Steps st cached check.enabled _ _
        (checked-Steps "failed to check node pressure"
          (check_node_pressure c config.node_selector check.pressure_types) _
          (check_node_pressure-Steps config.node_selector check.pressure_types))
        (λ v. st.stays v.1)

  add_pending-Steps :
      (check : Option PendingPodsCheckConfig) (found : Found)
      → Steps Goes cached (add_pending c scrape check found)
  unfolding add_pending
  add_pending-Steps none found = λ v. st.stays v.1
  add_pending-Steps (some check) (signals, metrics) =
      if-Steps st cached check.enabled _ _
        (checked-Steps "failed to check pending pods" (check_pending_pods c check.threshold) _
          (check_pending_pods-Steps check.threshold))
        (λ v. st.stays v.1)

  add_usage-Steps :
      (config : AdaptiveThrottlingConfig) (check : Option NodeUsageCheckConfig) (found : Found)
      → Steps Goes cached (add_usage c scrape config check found)
  unfolding add_usage
  add_usage-Steps config none found = λ v. st.stays v.1
  add_usage-Steps config (some check) (signals, metrics) =
      if-Steps st cached check.enabled _ _
        (call-Steps st cached (wrapping _ (read_usage c scrape config check)) _
          (read_usage-Steps config check))
        (λ v. st.stays v.1)

  add_restarts-Steps :
      (namespace : String) (check : Option ContainerRestartsCheckConfig) (found : Found)
      → Steps Goes cached (add_restarts c scrape namespace check found)
  unfolding add_restarts
  add_restarts-Steps namespace none found = λ v. st.stays v.1
  add_restarts-Steps namespace (some check) (signals, metrics) =
      if-Steps st cached check.enabled _ _
        (checked-Steps "failed to check container restarts"
          (check_container_restarts c namespace check.restart_threshold) _
          (check_container_restarts-Steps namespace check.restart_threshold))
        (λ v. st.stays v.1)

  found-Steps :
      (m : Action (NodeMetricsCache × W) Found) (f : Found → Action (NodeMetricsCache × W) Found)
      → Steps Goes cached m
      → ((a : Found) → Steps Goes cached (f a))
      → Steps Goes cached (m >>= f)
  found-Steps m f h k = bind-Steps st cached m f h k

  run_checks-Steps :
      (config : AdaptiveThrottlingConfig) (checks : Option SignalChecksConfig) (namespace : String)
      → Steps Goes cached (run_checks c scrape config checks namespace)
  unfolding run_checks
  run_checks-Steps config none namespace = λ v. st.stays v.1
  run_checks-Steps config (some checks) namespace =
      found-Steps (add_readiness c scrape config checks.check_node_ready ([], no_metrics)) _
        (add_readiness-Steps config checks.check_node_ready ([], no_metrics))
        (λ a.
          found-Steps (add_pressure c scrape config checks.check_node_pressure a) _
            (add_pressure-Steps config checks.check_node_pressure a)
            (λ b.
              found-Steps (add_pending c scrape checks.check_pending_pods b) _
                (add_pending-Steps checks.check_pending_pods b)
                (λ d.
                  found-Steps (add_usage c scrape config checks.check_node_usage d)
                    (add_restarts c scrape namespace checks.check_container_restarts)
                    (add_usage-Steps config checks.check_node_usage d)
                    (add_restarts-Steps namespace checks.check_container_restarts))))

  pub collect_signals-Steps :
      (config : AdaptiveThrottlingConfig) (namespace : String)
      → Steps Goes cached (collect_signals c scrape (some config) namespace)
  unfolding collect_signals
  collect_signals-Steps config namespace = run_checks-Steps config config.signal_checks namespace

  signals_of-Goes :
      (w : W) (r : Result Found × (NodeMetricsCache × W)) → Goes w r.1.1 → Goes w (signals_of r).1.1
  signals_of-Goes w (ok found, v) h = h
  signals_of-Goes w (err e, v) h = h

  pub signals-Goes :
      (config : AdaptiveThrottlingConfig) (namespace : String) (v : NodeMetricsCache × W)
      → Goes v.1 (signals_of (collect_signals c scrape (some config) namespace v)).1.1
  signals-Goes config namespace v = signals_of-Goes v.1 _ (collect_signals-Steps config namespace v)

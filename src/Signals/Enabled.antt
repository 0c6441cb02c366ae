-- ===== src/Signals/Enabled.antt =====
-- Every signal that is collected belongs to a check that is switched on.
use app_lifecycle_kubernetes.Base.{
  String, Bool, true, false, Option, none, some, List, [], ◌++◌, ◌≡◌, sym, ◌∙◌, ap, Result, ok, err,
  Action, answered, subst, pure, ◌>>=◌, wrapping, Every, Every-append, Every-map, Yields,
  pure-Yields, bind-Yields, wrapping-Yields, Bool-cases, inl, inr,
}
use app_lifecycle_kubernetes.Types.{
  Signal, SignalType, node_not_ready, node_pressure, pending_pods, node_usage, container_restarts,
  AdaptiveThrottlingConfig, SignalChecksConfig, NodeReadyCheckConfig, NodePressureCheckConfig,
  PendingPodsCheckConfig, NodeUsageCheckConfig, ContainerRestartsCheckConfig,
}
use app_lifecycle_kubernetes.Client.{Client}
use app_lifecycle_kubernetes.Signals.{
  ThrottlingMetrics, no_metrics, count_pending, not_ready_nodes, pressures, pending_signal,
  unhealthy_pods, check_node_readiness, check_node_pressure, check_pending_pods,
  check_container_restarts,
}
use app_lifecycle_kubernetes.Signals.Collect.{
  NodeMetricsCache, Found, Scrape, collect_signals, run_checks, add_readiness, add_pressure,
  add_pending, add_usage, add_restarts, lift, option_list, read_usage,
}
use app_lifecycle_kubernetes.Signals.Kinds.{
  OfType, not_ready_nodes-OfType, pressures-OfType, pending_signal-OfType, unhealthy_pods-OfType,
}
use app_lifecycle_kubernetes.Signals.Usages.{Used, ScrapesUsage, read_usage-Used}

-- Whether a check is configured and switched on.
abbrev pub ready_on : Option NodeReadyCheckConfig → Bool
ready_on none = false
ready_on (some check) = check.enabled

abbrev pub pressure_on : Option NodePressureCheckConfig → Bool
pressure_on none = false
pressure_on (some check) = check.enabled

abbrev pub pending_on : Option PendingPodsCheckConfig → Bool
pending_on none = false
pending_on (some check) = check.enabled

abbrev pub usage_on : Option NodeUsageCheckConfig → Bool
usage_on none = false
usage_on (some check) = check.enabled

abbrev pub restarts_on : Option ContainerRestartsCheckConfig → Bool
restarts_on none = false
restarts_on (some check) = check.enabled

-- The same for the check of a signal type.
abbrev pub is_enabled : SignalType → SignalChecksConfig → Bool
is_enabled node_not_ready checks = ready_on checks.check_node_ready
is_enabled node_pressure checks = pressure_on checks.check_node_pressure
is_enabled pending_pods checks = pending_on checks.check_pending_pods
is_enabled node_usage checks = usage_on checks.check_node_usage
is_enabled container_restarts checks = restarts_on checks.check_container_restarts

abbrev pub Enabled : SignalChecksConfig → List Signal → Type 0
Enabled checks signals = Every (λ s. is_enabled s.type checks ≡ true) signals

OfType-Enabled :
    (checks : SignalChecksConfig) (t : SignalType) (signals : List Signal)
    → is_enabled t checks ≡ true
    → OfType t signals
    → Enabled checks signals
OfType-Enabled checks t signals on =
    Every-map _ _ signals (λ s e. ap (λ x. is_enabled x checks) e ∙ on)

-- A lifted call answers what the call answers and keeps the cache.
lift_answer :
    {W A : Type 0} {P : A → Type 0} (cache : NodeMetricsCache) (r : Result A × W)
    → ((a : A) (v : W) → r ≡ (ok a, v) → P a)
    → (a : A) (v : NodeMetricsCache × W)
    → ◌≡◌ {A = Result A × (NodeMetricsCache × W)} (r.0, (cache, r.1)) (ok a, v)
    → P a × (cache ≡ v.0)
lift_answer cache (ok x, w) p a v e = (p a w (cc e), cc e)
lift_answer cache (err x, w) p a v e = cc e

lift-Yields :
    {W A : Type 0} (P : A → Type 0) (m : Action W A) (v : NodeMetricsCache × W)
    → Yields (λ a _. P a) m v.1
    → Yields (λ a u. P a × (v.0 ≡ u.0)) (lift m) v
lift-Yields P m (cache, w) p = lift_answer cache (m w) p

module _ {W : Type 0} (c : Client W) (scrape : Scrape W) (config : AdaptiveThrottlingConfig)
    (checks : SignalChecksConfig) where
  -- The found signals belong to checks that are on, and the cached ones to the check of node usage.
  abbrev Good : Found → NodeMetricsCache × W → Type 0
  Good found v = Enabled checks found.0 × OfType node_usage v.0.signals

  -- Adding signals of a type whose check is on keeps the found ones good.
  add-Enabled :
      (t : SignalType) (old new : List Signal)
      → is_enabled t checks ≡ true
      → Enabled checks old
      → OfType t new
      → Enabled checks (old ++ new)
  add-Enabled t old new on good kind =
      Every-append _ old new good (OfType-Enabled checks t new on kind)

  -- The step that the checks share: a call whose signals, `news` of its answer, are added.
  added-Good :
      {A : Type 0} (text : String) (m : Action W A) (t : SignalType) (news : A → List Signal)
      (measure : A → ThrottlingMetrics) (old : List Signal) (v : NodeMetricsCache × W)
      → is_enabled t checks ≡ true
      → Enabled checks old × OfType node_usage v.0.signals
      → Yields (λ a _. OfType t (news a)) m v.1
      → Yields Good (lift (wrapping text m) >>= λ a. pure (old ++ news a, measure a)) v
  added-Good text m t news measure old v on good kind =
      bind-Yields (λ a u. OfType t (news a) × (v.0 ≡ u.0)) Good (lift (wrapping text m))
        (λ a. pure (old ++ news a, measure a)) v
        (lift-Yields (λ a. OfType t (news a)) (wrapping text m) v
          (wrapping-Yields (λ a _. OfType t (news a)) text m v.1 kind))
        (λ a u k. pure-Yields Good _ u (
          add-Enabled t old (news a) on good.0 k.0,
          subst (λ x. OfType node_usage x.signals) k.1 good.1,
        ))

  add_readiness-Good :
      (check : Option NodeReadyCheckConfig) (found : Found) (v : NodeMetricsCache × W)
      → (ready_on check ≡ true → is_enabled node_not_ready checks ≡ true)
      → Good found v
      → Yields Good (add_readiness c scrape config check found) v
  unfolding add_readiness check_node_readiness
  add_readiness-Good none found v on good = pure-Yields Good found v good
  add_readiness-Good (some check) (old, metrics) v on good = elim (Bool-cases check.enabled) [
    | inl y ↦ rw y (
        added-Good "failed to check node readiness" (check_node_readiness c config.node_selector)
          node_not_ready (λ r. r.0) (λ r. record metrics { not_ready_nodes = r.1 }) old v (on y)
          good (answered (c.list_nodes _) not_ready_nodes _ v.1 not_ready_nodes-OfType))
    | inr n ↦ rw n (pure-Yields Good _ v good)
  ]

  add_pressure-Good :
      (check : Option NodePressureCheckConfig) (found : Found) (v : NodeMetricsCache × W)
      → (pressure_on check ≡ true → is_enabled node_pressure checks ≡ true)
      → Good found v
      → Yields Good (add_pressure c scrape config check found) v
  unfolding add_pressure check_node_pressure
  add_pressure-Good none found v on good = pure-Yields Good found v good
  add_pressure-Good (some check) (old, metrics) v on good = elim (Bool-cases check.enabled) [
    | inl y ↦ rw y (
        added-Good "failed to check node pressure"
          (check_node_pressure c config.node_selector check.pressure_types) node_pressure (λ r. r)
          (λ r. metrics) old v (on y) good
          (answered (c.list_nodes _) (pressures _) _ v.1 (pressures-OfType _)))
    | inr n ↦ rw n (pure-Yields Good _ v good)
  ]

  add_pending-Good :
      (check : Option PendingPodsCheckConfig) (found : Found) (v : NodeMetricsCache × W)
      → (pending_on check ≡ true → is_enabled pending_pods checks ≡ true)
      → Good found v
      → Yields Good (add_pending c scrape check found) v
  unfolding add_pending check_pending_pods
  add_pending-Good none found v on good = pure-Yields Good found v good
  add_pending-Good (some check) (old, metrics) v on good = elim (Bool-cases check.enabled) [
    | inl y ↦ rw y (
        added-Good "failed to check pending pods" (check_pending_pods c check.threshold)
          pending_pods (λ r. option_list r.0) (λ r. record metrics { pending_pods_count = r.1 }) old
          v (on y) good
          (answered (c.list_pods _)
            (λ pods. (pending_signal check.threshold (count_pending pods), count_pending pods)) _
            v.1 (λ pods. pending_signal-OfType check.threshold (count_pending pods))))
    | inr n ↦ rw n (pure-Yields Good _ v good)
  ]

  add_restarts-Good :
      (namespace : String) (check : Option ContainerRestartsCheckConfig) (found : Found)
      (v : NodeMetricsCache × W)
      → (restarts_on check ≡ true → is_enabled container_restarts checks ≡ true)
      → Good found v
      → Yields Good (add_restarts c scrape namespace check found) v
  unfolding add_restarts check_container_restarts
  add_restarts-Good namespace none found v on good = pure-Yields Good found v good
  add_restarts-Good namespace (some check) (old, metrics) v on good =
      elim (Bool-cases check.enabled) [
        | inl y ↦ rw y (
            added-Good "failed to check container restarts"
              (check_container_restarts c namespace check.restart_threshold) container_restarts
              (λ r. r.0) (λ r. record metrics { unhealthy_pods = r.1 }) old v (on y) good
              (answered (c.list_pods _) (unhealthy_pods _) _ v.1 (unhealthy_pods-OfType _)))
        | inr n ↦ rw n (pure-Yields Good _ v good)
      ]

  add_usage-Good :
      (check : Option NodeUsageCheckConfig) (found : Found) (v : NodeMetricsCache × W)
      → ScrapesUsage scrape
      → (usage_on check ≡ true → is_enabled node_usage checks ≡ true)
      → Good found v
      → Yields Good (add_usage c scrape config check found) v
  unfolding add_usage
  add_usage-Good none found v p on good = pure-Yields Good found v good
  add_usage-Good (some check) (old, metrics) v p on good = elim (Bool-cases check.enabled) [
    | inl y ↦ simp y (
        bind-Yields Used Good
          (wrapping "failed to check node usage" (read_usage c scrape config check))
          (λ r. pure (
            old ++ r.0,
            record metrics { average_cpu_percent = r.1; average_memory_percent = r.2 },
          ))
          v
          (wrapping-Yields Used "failed to check node usage" (read_usage c scrape config check) v
            (read_usage-Used c scrape config check v p good.1))
          (λ r u used.
            pure-Yields Good _ u (add-Enabled node_usage old r.0 (on y) good.0 used.0, used.1)))
    | inr n ↦ rw n (pure-Yields Good _ v good)
  ]

  run_checks-Good :
      (namespace : String) (v : NodeMetricsCache × W)
      → ScrapesUsage scrape
      → OfType node_usage v.0.signals
      → Yields Good (run_checks c scrape config (some checks) namespace) v
  unfolding run_checks
  run_checks-Good namespace v p old =
      let last = λ (e : Found). add_restarts c scrape namespace checks.check_container_restarts e in
      let fourth = λ (d : Found). add_usage c scrape config checks.check_node_usage d >>= last in
      let third = λ (b : Found). add_pending c scrape checks.check_pending_pods b >>= fourth in
      let second =
        λ (a : Found). add_pressure c scrape config checks.check_node_pressure a >>= third in
      bind-Yields Good Good (add_readiness c scrape config checks.check_node_ready ([], no_metrics))
        second v (add_readiness-Good checks.check_node_ready ([], no_metrics) v (λ h. h) (tt, old))
        (λ a v₁ g₁.
          bind-Yields Good Good (add_pressure c scrape config checks.check_node_pressure a) third v₁
            (add_pressure-Good checks.check_node_pressure a v₁ (λ h. h) g₁)
            (λ b v₂ g₂.
              bind-Yields Good Good (add_pending c scrape checks.check_pending_pods b) fourth v₂
                (add_pending-Good checks.check_pending_pods b v₂ (λ h. h) g₂)
                (λ d v₃ g₃.
                  bind-Yields Good Good (add_usage c scrape config checks.check_node_usage d) last
                    v₃ (add_usage-Good checks.check_node_usage d v₃ p (λ h. h) g₃)
                    (λ e v₄ g₄.
                      add_restarts-Good namespace checks.check_container_restarts e v₄ (λ h. h)
                        g₄))))

-- Where the scrape and the cache hold signals of node usage only, every signal that is collected
-- belongs to a check that is configured and switched on, and the cache goes on to hold such signals only.
pub collect_signals_lem :
    {W : Type 0} (c : Client W) (scrape : Scrape W) (config : AdaptiveThrottlingConfig)
    (checks : SignalChecksConfig) (namespace : String) (v : NodeMetricsCache × W) (found : Found)
    (v₁ : NodeMetricsCache × W)
    → ScrapesUsage scrape
    → OfType node_usage v.0.signals
    → config.signal_checks ≡ some checks
    → collect_signals c scrape (some config) namespace v ≡ (ok found, v₁)
    → Enabled checks found.0 × OfType node_usage v₁.0.signals
unfolding collect_signals
collect_signals_lem c scrape config checks namespace v found v₁ p old has run =
    run_checks-Good c scrape config checks namespace v p old found v₁
      (sym (ap (λ t. run_checks c scrape config t namespace v) has) ∙ run)

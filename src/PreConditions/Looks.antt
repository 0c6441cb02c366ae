-- ===== src/PreConditions/Looks.antt =====
-- What the checks of pre-conditions and the wait for them leave alone, told by a relation between
-- worlds that the single calls keep to.
use app_lifecycle_kubernetes.Base.{
  ℕ, zero, suc, String, Bool, true, false, not, Option, none, some, List, [], ◌∷◌, Action, Result,
  ok, err, not_found, conflict, canceled, message, panicked, wrapped, wrapping, default_if_zero,
  Bool-cases, inl, inr,
}
use app_lifecycle_kubernetes.Base.Text.{split}
use app_lifecycle_kubernetes.Types.{Policy, PreConditionsConfig, HealthEndpointCheck}
use app_lifecycle_kubernetes.Kube.{Workload}
use app_lifecycle_kubernetes.Client.{Client}
use app_lifecycle_kubernetes.Progress.{update_pre_conditions_status}
use app_lifecycle_kubernetes.Signals.Collect.{Scrape}
use app_lifecycle_kubernetes.Nodes.Wait.{WaitEvent, done, timed_out, ticked, or_canceled}
use app_lifecycle_kubernetes.PreConditions.{
  Http, stateful_set_verdict, deployment_verdict, check_app_parts, check_app_readiness,
  check_health_endpoint, collect_failed, conclude, check_configured, check_pre_conditions,
}
use app_lifecycle_kubernetes.PreConditions.Wait.{
  Select, Tick, timeout_error, ended, waits, enabled_config, is_enabled, note_check,
  is_freeze_requested, after_check, check_once, on_latest, on_tick, wait_checks_loop,
  wait_configured, wait_for_pre_conditions,
}
use app_lifecycle_kubernetes.Throttle.Wired.Steady.{
  Steady, Steps, plain, bind-Steps, call-Steps, if-Steps, patch_latest-Steps,
}

-- The calls of the checks keep to a relation.
pub record Looking {W : Type 0} (c : Client W) (http : Http W) (select : Select W)
    (Goes : W → W → Type 0) : Type 0 where
  pub get_goes : (ns name : String) (w : W) → Goes w (c.deployments.get ns name w).1
  pub get_set_goes : (ns name : String) (w : W) → Goes w (c.stateful_sets.get ns name w).1
  pub http_goes : (url : String) (seconds : ℕ) (w : W) → Goes w (http url seconds w).1
  pub select_goes : (period seconds : ℕ) (w : W) → Goes w (select period seconds w).1

module _ {W : Type 0} {c : Client W} {http : Http W} {select : Select W} {scrape : Scrape W}
    {Goes : W → W → Type 0} (st : Steady c scrape Goes) (looking : Looking c http select Goes) where
  stateful_set_verdict-Steps :
      (ns name : String) (found : Result Workload)
      → Steps Goes plain (stateful_set_verdict {W = W} ns name found)
  unfolding stateful_set_verdict
  stateful_set_verdict-Steps ns name (ok s) = st.stays
  stateful_set_verdict-Steps ns name (err not_found) = st.stays
  stateful_set_verdict-Steps ns name (err conflict) = st.stays
  stateful_set_verdict-Steps ns name (err canceled) = st.stays
  stateful_set_verdict-Steps ns name (err (message s)) = st.stays
  stateful_set_verdict-Steps ns name (err (panicked s)) = st.stays
  stateful_set_verdict-Steps ns name (err (wrapped s e)) = st.stays

  deployment_verdict-Steps :
      (ns name : String) (found : Result Workload)
      → Steps Goes plain (deployment_verdict c ns name found)
  unfolding deployment_verdict
  deployment_verdict-Steps ns name (ok d) = st.stays
  deployment_verdict-Steps ns name (err not_found) =
      λ w. st.onward w _ _ (looking.get_set_goes ns name w) (stateful_set_verdict-Steps ns name _ _)
  deployment_verdict-Steps ns name (err conflict) = st.stays
  deployment_verdict-Steps ns name (err canceled) = st.stays
  deployment_verdict-Steps ns name (err (message s)) = st.stays
  deployment_verdict-Steps ns name (err (panicked s)) = st.stays
  deployment_verdict-Steps ns name (err (wrapped s e)) = st.stays

  check_app_parts-Steps :
      (app : String) (parts : List String) → Steps Goes plain (check_app_parts c app parts)
  unfolding check_app_parts
  check_app_parts-Steps app [] = st.stays
  check_app_parts-Steps app (ns ∷ []) = st.stays
  check_app_parts-Steps app (ns ∷ name ∷ []) =
      λ w. st.onward w _ _ (looking.get_goes ns name w) (deployment_verdict-Steps ns name _ _)
  check_app_parts-Steps app (ns ∷ name ∷ more ∷ rest) = st.stays

  check_app_readiness-Steps : (app : String) → Steps Goes plain (check_app_readiness c app)
  unfolding check_app_readiness
  check_app_readiness-Steps app = check_app_parts-Steps app (split app ".")

  check_health_endpoint-Steps :
      (check : HealthEndpointCheck) → Steps Goes plain (check_health_endpoint http check)
  unfolding check_health_endpoint
  check_health_endpoint-Steps check =
      call-Steps st plain (wrapping _ (http check.url (default_if_zero 5 check.timeout_seconds))) _
        (looking.http_goes check.url (default_if_zero 5 check.timeout_seconds))

  collect_failed-Steps :
      {A : Type 0} (name : A → String) (text : String) (check : A → Action W Bool)
      → ((x : A) → Steps Goes plain (check x))
      → (xs : List A) (failed : List String)
      → Steps Goes plain (collect_failed name text check xs failed)
  unfolding collect_failed
  collect_failed-Steps name text check h [] failed = st.stays
  collect_failed-Steps name text check h (x ∷ rest) failed =
      bind-Steps st plain (wrapping _ (check x)) _ (h x)
        (λ good. collect_failed-Steps name text check h rest _)

  check_configured-Steps :
      (config : Option PreConditionsConfig) → Steps Goes plain (check_configured c http config)
  unfolding check_configured
  check_configured-Steps none = st.stays
  check_configured-Steps (some config) = if-Steps st plain (not config.enabled) _ _ st.stays (
      bind-Steps st plain
        (collect_failed (λ app. app) "failed to check app readiness for " (check_app_readiness c)
          config.app_readiness_checks [])
        _
        (collect_failed-Steps (λ app. app) "failed to check app readiness for "
          (check_app_readiness c) check_app_readiness-Steps config.app_readiness_checks [])
        (λ apps.
          call-Steps st plain
            (collect_failed (λ check. check.url) "failed to check health endpoint "
              (check_health_endpoint http) config.health_endpoint_checks [])
            (conclude apps)
            (collect_failed-Steps (λ check. check.url) "failed to check health endpoint "
              (check_health_endpoint http) check_health_endpoint-Steps config.health_endpoint_checks
              [])))

  pub check_pre_conditions-Steps :
      (policy : Policy) → Steps Goes plain (check_pre_conditions c http policy)
  unfolding check_pre_conditions
  check_pre_conditions-Steps policy = check_configured-Steps policy.spec.pre_conditions

  note_check-Goes :
      (policy : Policy) (checking passed : Bool) (text : String) (w : W)
      → Goes w (note_check c policy checking passed text w)
  unfolding note_check update_pre_conditions_status
  note_check-Goes policy checking passed text w =
      st.onward w (c.now w).1 _ (st.now_goes w) (patch_latest-Steps st policy _ (c.now w).1)

  after_check-Goes :
      (policy : Policy) (checked : Result (Bool × String)) (w : W)
      → Goes w (after_check c policy checked w).1
  unfolding after_check
  after_check-Goes policy (err e) w = note_check-Goes policy _ _ _ w
  after_check-Goes policy (ok (true, text)) w = note_check-Goes policy _ _ _ w
  after_check-Goes policy (ok (false, text)) w = note_check-Goes policy _ _ _ w

  check_once-Goes : (policy : Policy) (w : W) → Goes w (check_once c http policy w).1
  unfolding check_once
  check_once-Goes policy w =
      st.onward w _ _ (check_pre_conditions-Steps policy w) (after_check-Goes policy _ _)

  on_latest-Goes :
      (is_startup : Bool) (policy : Policy) (read : Result Policy) (w : W)
      → Goes w (on_latest c http is_startup policy read w).1
  unfolding on_latest
  on_latest-Goes is_startup policy (err e) w = check_once-Goes policy w
  on_latest-Goes is_startup policy (ok latest) w =
      elim (Bool-cases (is_freeze_requested latest is_startup)) [
        | inl y ↦ rw y (note_check-Goes latest _ _ _ w)
        | inr n ↦ elim (Bool-cases (is_enabled latest.spec.pre_conditions)) [
          | inl on ↦ rw (n, on) (check_once-Goes latest w)
          | inr off ↦ rw (n, off) (note_check-Goes latest _ _ _ w)
        ]
      ]

  on_tick-Goes :
      (is_startup : Bool) (policy : Policy) (w : W) → Goes w (on_tick c http is_startup policy w).1
  unfolding on_tick
  on_tick-Goes is_startup policy w =
      st.onward w _ _ (st.get_policy_goes policy.namespace policy.name w)
        (on_latest-Goes is_startup policy _ _)

  abbrev pub Ended : W → Option (Result (Unit {0}) × W) → Type 0
  Ended w none = Unit {0}
  Ended w (some (r, u)) = Goes w u

  pub Ended-onward :
      (w v : W) (r : Option (Result (Unit {0}) × W)) → Goes w v → Ended v r → Ended w r
  Ended-onward w v none h k = tt
  Ended-onward w v (some (r, u)) h k = st.onward w v u h k

  wait_checks_loop-Ended :
      (is_startup : Bool) (seconds period fuel : ℕ) (policy : Policy) (w : W)
      → Ended w (wait_checks_loop c http is_startup seconds (select period seconds) fuel policy w)
  unfolding wait_checks_loop
  wait_checks_loop-Ended is_startup seconds period zero policy w = tt
  wait_checks_loop-Ended is_startup seconds period (suc fuel) policy w =
      on_event (select period seconds w).0 (select period seconds w).1
        (looking.select_goes period seconds w)
        (on_tick c http is_startup policy (select period seconds w).1).0
        (on_tick c http is_startup policy (select period seconds w).1).1
        (on_tick-Goes is_startup policy (select period seconds w).1)
        (λ p v. wait_checks_loop-Ended is_startup seconds period fuel p v)
    where
      on_event :
          (event : WaitEvent) (w₁ : W)
          → Goes w w₁
          → (tick : Tick) (w₂ : W) → Goes w₁ w₂
          → ((p : Policy) (v : W)
              → Ended v
                  (wait_checks_loop c http is_startup seconds (select period seconds) fuel p v))
          → Ended w (elim event [
            | done ↦ some (err (or_canceled (c.context_error w₁)), w₁)
            | timed_out ↦ some (
              timeout_error seconds,
              note_check c policy false false "Pre-conditions timeout reached" w₁,
            )
            | ticked ↦ elim tick [
              | ended r ↦ some (r, w₂)
              | waits p ↦
                  wait_checks_loop c http is_startup seconds (select period seconds) fuel p w₂
            ]
          ])
      on_event done w₁ h tick w₂ k again = h
      on_event timed_out w₁ h tick w₂ k again = st.onward w w₁ _ h (note_check-Goes policy _ _ _ w₁)
      on_event ticked w₁ h (ended r) w₂ k again = st.onward w w₁ w₂ h k
      on_event ticked w₁ h (waits p) w₂ k again =
          Ended-onward w w₂ _ (st.onward w w₁ w₂ h k) (again p w₂)

  wait_configured-Ended :
      (policy : Policy) (is_startup : Bool) (fuel : ℕ) (config : Option PreConditionsConfig) (w : W)
      → Ended w (wait_configured c http select policy is_startup fuel config w)
  unfolding wait_configured
  wait_configured-Ended policy is_startup fuel none w = st.stays w
  wait_configured-Ended policy is_startup fuel (some config) w =
      Ended-onward w _ _ (note_check-Goes policy _ _ _ w)
        (wait_checks_loop-Ended is_startup config.timeout_seconds _ fuel policy _)

  pub wait_for_pre_conditions-Ended :
      (policy : Policy) (is_startup : Bool) (fuel : ℕ) (w : W)
      → Ended w (wait_for_pre_conditions c http select policy is_startup fuel w)
  unfolding wait_for_pre_conditions
  wait_for_pre_conditions-Ended policy is_startup fuel w =
      wait_configured-Ended policy is_startup fuel (enabled_config policy.spec.pre_conditions) w

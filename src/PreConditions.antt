-- ===== src/PreConditions.antt =====
-- Pre-conditions of a resume: `checkAppReadiness`, `checkHealthEndpoint` and `checkPreConditions` of
-- internal/controller/namespacelifecyclepolicy_controller.go.
pub mod Verdict
pub mod Wait
pub mod Looks
use app_lifecycle_kubernetes.Base.{
  ℕ, String, Bool, true, false, not, ◌&&◌, ◌||◌, Option, none, some, List, [], ◌∷◌, ◌++◌, Action,
  Result, ok, err, Error, not_found, message, wrapped, pure, throw, ◌>>=◌, wrapping, any, ◌==◌,
  str_eq, default_if_zero, if◌then◌else◌,
}
use app_lifecycle_kubernetes.Base.Text.{◌+++◌, join, split}
use app_lifecycle_kubernetes.Types.{Policy, PreConditionsConfig, HealthEndpointCheck}
use app_lifecycle_kubernetes.Kube.{Workload, KubeCondition, is_true}
use app_lifecycle_kubernetes.Client.{Client}

-- An HTTP GET with a timeout in seconds, as `net/http` does it: the request may be malformed, which is
-- the error, or it may fail, or it has a status code.
abbrev pub Http : Type 0 → Type 0
Http W = String → ℕ → Action W (Option ℕ)

-- All replicas run, and there are some.
unfoldable pub has_all_replicas : Workload → Bool
has_all_replicas w =
    if w.current_replicas == 0 then false else w.ready_replicas == w.current_replicas

-- The first Available condition decides; a Deployment without one counts as available.
unfoldable pub is_available : List KubeCondition → Bool
is_available [] = true
is_available (c ∷ rest) =
    let later = is_available rest in if str_eq c.type "Available" then is_true c.status else later

abbrev object_path : String → String → String
object_path namespace name = namespace +++ ("/" +++ name)

-- What the second `Get` leads to; an object that is not there is not ready.
unfoldable pub stateful_set_verdict :
    {W : Type 0} → String → String → Result Workload → Action W Bool
unfolding has_all_replicas
stateful_set_verdict namespace name (ok s) = pure (has_all_replicas s)
stateful_set_verdict namespace name (err not_found) = pure false
stateful_set_verdict namespace name (err e) =
    throw (wrapped ("failed to get statefulset " +++ object_path namespace name) e)

-- What the first `Get` leads to: a Deployment's verdict, or a second `Get` for a StatefulSet.
unfoldable pub deployment_verdict :
    {W : Type 0} → Client W → String → String → Result Workload → Action W Bool
unfolding has_all_replicas is_available stateful_set_verdict
deployment_verdict c namespace name (ok d) = pure (has_all_replicas d && is_available d.conditions)
deployment_verdict c namespace name (err not_found) = λ w.
    let (found, w₁) = c.stateful_sets.get namespace name w in
    stateful_set_verdict namespace name found w₁
deployment_verdict c namespace name (err e) =
    throw (wrapped ("failed to get deployment " +++ object_path namespace name) e)

-- A reference is `namespace.name`.
unfoldable pub check_app_parts : {W : Type 0} → Client W → String → List String → Action W Bool
unfolding deployment_verdict
check_app_parts c app (namespace ∷ name ∷ []) = λ w.
    let (found, w₁) = c.deployments.get namespace name w in
    deployment_verdict c namespace name found w₁
check_app_parts c app _ =
    throw (message ("invalid app reference format: " +++ (app +++ " (expected 'namespace.name')")))

unfoldable pub check_app_readiness : {W : Type 0} → Client W → String → Action W Bool
unfolding check_app_parts
check_app_readiness c app = check_app_parts c app (split app ".")

abbrev pub codes_or_default : List ℕ → List ℕ
codes_or_default [] = 200 ∷ 201 ∷ 202 ∷ 204 ∷ []
codes_or_default (code ∷ codes) = code ∷ codes

abbrev pub is_expected : List ℕ → Option ℕ → Bool
is_expected codes none = false
is_expected codes (some code) = any (λ x. code == x) codes

-- A request that fails is no error: the endpoint is not healthy yet.
unfoldable pub check_health_endpoint : {W : Type 0} → Http W → HealthEndpointCheck → Action W Bool
check_health_endpoint http check = do
  answer ←
      wrapping ("failed to create request for " +++ check.url)
        (http check.url (default_if_zero 5 check.timeout_seconds))
  pure (is_expected (codes_or_default check.expected_status_codes) answer)

-- The loop of both kinds of checks: the names of what is not ready, or the first error.
unfoldable pub collect_failed :
    {W A : Type 0}
    → (A → String)
    → String
    → (A → Action W Bool)
    → List A
    → List String
    → Action W (List String)
collect_failed name text check [] failed = pure failed
collect_failed name text check (x ∷ rest) failed = do
  good ← wrapping (text +++ name x) (check x)
  collect_failed name text check rest (if good then failed else failed ++ name x ∷ [])

abbrev pub part : String → List String → List String
part text [] = []
part text (x ∷ rest) = (text +++ join (x ∷ rest) ", ") ∷ []

-- The verdict with its message.
abbrev pub verdict : List String → Bool × String
verdict [] = (true, "All pre-conditions passed")
verdict (m ∷ rest) = (false, join (m ∷ rest) "; ")

unfoldable pub conclude : List String → List String → Bool × String
conclude apps endpoints =
    verdict (part "waiting for apps: " apps ++ part "waiting for endpoints: " endpoints)

unfoldable pub check_configured :
    {W : Type 0} → Client W → Http W → Option PreConditionsConfig → Action W (Bool × String)
unfolding check_app_readiness check_health_endpoint collect_failed conclude
check_configured c http none = pure (true, "")
check_configured c http (some config) =
    if not config.enabled
    then pure (true, "")
    else (collect_failed (λ app. app) "failed to check app readiness for " (check_app_readiness c)
          config.app_readiness_checks []
        >>= λ apps.
            collect_failed (λ check. check.url) "failed to check health endpoint "
              (check_health_endpoint http) config.health_endpoint_checks []
            >>= λ endpoints. pure (conclude apps endpoints))

unfoldable pub check_pre_conditions :
    {W : Type 0} → Client W → Http W → Policy → Action W (Bool × String)
unfolding check_configured
check_pre_conditions c http policy = check_configured c http policy.spec.pre_conditions

-- ===== src/PreConditions/Verdict.antt =====
-- When pre-conditions are met.
use app_lifecycle_kubernetes.Base.{
  Every, String, Bool, true, false, not, ◌&&◌, some, List, [], ◌∷◌, ◌++◌, map, ◌≡◌, refl, ap, ◌∙◌,
  Action, ok, all, keep, Bool-cases, inl, inr,
}
use mathlib.Core.List.{append-nil, append_assoc}
use app_lifecycle_kubernetes.Types.{Policy, PreConditionsConfig, HealthEndpointCheck}
use app_lifecycle_kubernetes.Client.{Client}
use app_lifecycle_kubernetes.PreConditions.{
  Http, check_app_readiness, check_health_endpoint, collect_failed, conclude, check_configured,
  check_pre_conditions,
}

-- The checks of a list answer, and change nothing.
abbrev pub Answers : {W A : Type 0} → (A → Action W Bool) → (A → Bool) → List A → W → Type 0
Answers check good xs w = Every (λ x. check x w ≡ (ok (good x), w)) xs

collect_failed_lem :
    {W A : Type 0} (name : A → String) (text : String) (check : A → Action W Bool) (good : A → Bool)
    (xs : List A) (failed : List String) (w : W)
    → Answers check good xs w
    → collect_failed name text check xs failed w
      ≡ (ok (failed ++ map name (keep (λ x. not (good x)) xs)), w)
unfolding collect_failed
collect_failed_lem name text check good [] failed w h = rw (append-nil failed) refl
collect_failed_lem name text check good (x ∷ rest) failed w h = elim (Bool-cases (good x)) [
  | inl y ↦ rw h.0 (rw y (collect_failed_lem name text check good rest failed w h.1))
  | inr n ↦ rw h.0 (
      rw n (
        collect_failed_lem name text check good rest (failed ++ name x ∷ []) w h.1
        ∙ rw (append_assoc failed (name x ∷ []) (map name (keep (λ x. not (good x)) rest))) refl))
]

abbrev is_nil : List String → Bool
is_nil [] = true
is_nil (x ∷ xs) = false

is_nil-failed :
    {A : Type 0} (name : A → String) (good : A → Bool) (xs : List A)
    → is_nil (map name (keep (λ x. not (good x)) xs)) ≡ all good xs
is_nil-failed name good [] = refl
is_nil-failed name good (x ∷ rest) = elim (Bool-cases (good x)) [
  | inl y ↦ rw y (is_nil-failed name good rest)
  | inr n ↦ rw n refl
]

conclude-is_nil :
    (apps endpoints : List String) → (conclude apps endpoints).0 ≡ (is_nil apps && is_nil endpoints)
unfolding conclude
conclude-is_nil [] [] = refl
conclude-is_nil [] (e ∷ es) = refl
conclude-is_nil (a ∷ apps) endpoints = refl

module _ {W : Type 0} (c : Client W) (http : Http W) (ready : String → Bool)
    (healthy : HealthEndpointCheck → Bool) where
  check_configured_lem :
      (config : PreConditionsConfig) (w : W)
      → config.enabled ≡ true
      → Answers (check_app_readiness c) ready config.app_readiness_checks w
      → Answers (check_health_endpoint http) healthy config.health_endpoint_checks w
      → (text : String) × (check_configured c http (some config) w ≡ (
        ok (
          all ready config.app_readiness_checks && all healthy config.health_endpoint_checks,
          text,
        ),
        w,
      ))
  unfolding check_configured
  check_configured_lem config w on apps endpoints =
      let failed_apps = map (λ app. app) (keep (λ x. not (ready x)) config.app_readiness_checks) in
      let failed_endpoints =
        map (λ check. check.url) (keep (λ x. not (healthy x)) config.health_endpoint_checks) in
      let passed : (conclude failed_apps failed_endpoints).0
          ≡ (all ready config.app_readiness_checks && all healthy config.health_endpoint_checks) =
        conclude-is_nil failed_apps failed_endpoints
        ∙ rw (is_nil-failed (λ app. app) ready config.app_readiness_checks)
            (rw (is_nil-failed (λ check. check.url) healthy config.health_endpoint_checks) refl) in
      (
        (conclude failed_apps failed_endpoints).1,
        simp on (
            rw
              (collect_failed_lem (λ app. app) "failed to check app readiness for "
                (check_app_readiness c) ready config.app_readiness_checks [] w apps)
              (rw
                (collect_failed_lem (λ check. check.url) "failed to check health endpoint "
                  (check_health_endpoint http) healthy config.health_endpoint_checks [] w endpoints)
                (ap (λ b. (ok (b, (conclude failed_apps failed_endpoints).1), w)) passed))),
      )

-- With pre-conditions switched on and a cluster that answers and holds still while they are checked,
-- the check passes exactly where every application is ready and every endpoint is healthy; one that is
-- not makes no error.
pub check_pre_conditions_lem :
    {W : Type 0} (c : Client W) (http : Http W) (ready : String → Bool)
    (healthy : HealthEndpointCheck → Bool) (policy : Policy) (config : PreConditionsConfig) (w : W)
    → policy.spec.pre_conditions ≡ some config
    → config.enabled ≡ true
    → Answers (check_app_readiness c) ready config.app_readiness_checks w
    → Answers (check_health_endpoint http) healthy config.health_endpoint_checks w
    → (text : String) × (check_pre_conditions c http policy w ≡ (
      ok (all ready config.app_readiness_checks && all healthy config.health_endpoint_checks, text),
      w,
    ))
unfolding check_pre_conditions
check_pre_conditions_lem c http ready healthy policy config w has on apps endpoints =
    let (text, e) = check_configured_lem c http ready healthy config w on apps endpoints in
    (text, ap (λ t. check_configured c http t w) has ∙ e)

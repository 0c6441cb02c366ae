-- ===== src/Examples/Scaling.antt =====
-- Freezing, resuming and balancing on concrete objects.
use app_lifecycle_kubernetes.Base.{
  ℕ, none, some, [], ◌∷◌, Result, ok, err, conflict, ◌≡◌, ◌≢◌, refl, arith,
}
use app_lifecycle_kubernetes.Base.Int.{pos}
use app_lifecycle_kubernetes.Base.Decimal.{itoa}
use app_lifecycle_kubernetes.Base.Dict.{lookup, insert}
use app_lifecycle_kubernetes.Types.{Policy}
use app_lifecycle_kubernetes.Workloads.{
  original_replicas, frozen_form, restored_form, resume_deployment,
}
use app_lifecycle_kubernetes.Workloads.RoundTrip.{IsPlain, refreeze_loses_grace}
use app_lifecycle_kubernetes.Workloads.Store.{resume_deployment-frozen}
use app_lifecycle_kubernetes.Workloads.Balance.{}
use app_lifecycle_kubernetes.Examples.Fixtures.{policy, web, db, World, client, client_laws, world}

web-IsPlain : IsPlain web
unfolding lookup
web-IsPlain = record {
  no_count = refl;
  no_grace = refl;
  count_fits = omega arith;
  grace_fits = omega arith;
}

db-IsPlain : IsPlain db
unfolding lookup
db-IsPlain = record { no_count = refl; no_grace = refl; count_fits = omega arith; grace_fits = tt }

-- An absent count is noted as 1, and an absent grace period as nil.
db_frozen :
    (frozen_form (some 5) db).annotations
    ≡ ("team", "red")
      ∷ ("apps.ops.dev/original-replicas", "1")
      ∷ ("apps.ops.dev/original-termination-grace-period", "nil")
      ∷ []
unfolding frozen_form insert itoa
db_frozen = refl

refreeze_loses_grace_example :
    (restored_form (pos 3) (
      frozen_form
        (some 5)
        (record (frozen_form (some 5) web) { replicas = some (pos 2) }))).grace_period
    ≡ some (pos 5)
refreeze_loses_grace_example = refreeze_loses_grace 5 (pos 2) (pos 3) web (omega arith)

ok-ne-conflict : ◌≢◌ {A = Result (Unit {0})} (ok tt) (err conflict)
ok-ne-conflict e = cc e

abbrev frozen_world : World
frozen_world = record world {
  deployment = frozen_form (some 5) web;
  stateful_set = frozen_form none db;
}

abbrev resumed_world : World
resumed_world = record frozen_world {
  deployment = record web { replicas = some (original_replicas web.replicas) };
}

resume_deployment-frozen_example :
    resume_deployment client (frozen_form (some 5) web) frozen_world ≡ (ok tt, resumed_world)
resume_deployment-frozen_example =
    resume_deployment-frozen client client_laws (some 5) web frozen_world frozen_world resumed_world
      web-IsPlain refl refl ok-ne-conflict

abbrev resumed_at : ℕ → Policy
resumed_at t = record policy { status = record policy.status { last_resume_at = some t } }

-- ===== src/Examples/Waits.antt =====
-- The wait for pre-conditions in a small cluster.
use app_lifecycle_kubernetes.Base.{
  suc, true, false, none, some, [], ◌∷◌, ok, ◌≡◌, refl, ltb, if◌then◌else◌, ◌⊎◌,
}
use app_lifecycle_kubernetes.Types.{Policy, PreConditionsConfig}
use app_lifecycle_kubernetes.Progress.{}
use app_lifecycle_kubernetes.Override.{is_manual_pending}
use app_lifecycle_kubernetes.Nodes.Wait.{timed_out, ticked}
use app_lifecycle_kubernetes.PreConditions.{Http, check_pre_conditions}
use app_lifecycle_kubernetes.PreConditions.Wait.{Select, note_check, wait_for_pre_conditions}
use app_lifecycle_kubernetes.PreConditions.Wait.Outcomes.{
  Passed, SwitchedOff, wait_for_pre_conditions-Passed,
}
use app_lifecycle_kubernetes.Reconcile.Parts.{}
use app_lifecycle_kubernetes.Reconcile.Resuming.{}
use app_lifecycle_kubernetes.Startup.{}
use app_lifecycle_kubernetes.Examples.Fixtures.{policy, with_operation, World, client, world}

abbrev pub conditions : PreConditionsConfig
conditions = record {
  enabled = true;
  app_readiness_checks = [];
  health_endpoint_checks =
      record { url = "http://db/health"; expected_status_codes = []; timeout_seconds = 0 } ∷ [];
  check_interval = 0;
  timeout_seconds = 30;
  block_priority_chain = none;
}

abbrev pub guarded : Policy
guarded = record (with_operation "op-1" "op-1" policy) {
  spec = record (with_operation "op-1" "op-1" policy).spec { pre_conditions = some conditions };
}

abbrev guarded_world : World
guarded_world = record world { policy = guarded }

abbrev healthy : Http World
healthy url timeout w = (ok (some 200), w)

-- Each tick is one nanosecond later, and the timer fires at nine.
abbrev until_nine : Select World
until_nine period limit w =
    if ltb w.clock 9 then (ticked, record w { clock = suc w.clock }) else (timed_out, w)

abbrev passed_world : World
passed_world =
    note_check client guarded false true "All pre-conditions passed"
      (record (note_check client guarded true false "Checking pre-conditions..." guarded_world) {
        clock = 6;
      })

passes :
    wait_for_pre_conditions client healthy until_nine guarded false 3 guarded_world
    ≡ some (ok tt, passed_world)
unfolding wait_for_pre_conditions is_manual_pending check_pre_conditions
passes = refl

wait_for_pre_conditions-Passed_example :
    Passed client healthy guarded passed_world ⊎ SwitchedOff client guarded passed_world
wait_for_pre_conditions-Passed_example =
    wait_for_pre_conditions-Passed client healthy until_nine guarded false 3 guarded_world
      passed_world conditions refl passes

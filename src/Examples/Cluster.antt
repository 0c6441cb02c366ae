-- ===== src/Examples/Cluster.antt =====
-- Signals, nodes, pre-conditions and node failures in a small cluster.
use app_lifecycle_kubernetes.Base.{
  ◌<◌, String, Bool, true, false, ◌&&◌, none, some, List, [], ◌∷◌, Result, ok, ◌≡◌, inr, refl,
  arith, all, In, here,
}
use app_lifecycle_kubernetes.Base.Int.{pos}
use app_lifecycle_kubernetes.Types.{Policy, node_not_ready, PreConditionsConfig, Condition}
use app_lifecycle_kubernetes.Kube.{Node, Pod}
use app_lifecycle_kubernetes.Base.Text.{split}
use app_lifecycle_kubernetes.Signals.Collect.{NodeMetricsCache, Scrape}
use app_lifecycle_kubernetes.PreConditions.{
  Http, check_pre_conditions, check_app_readiness, check_health_endpoint,
}
use app_lifecycle_kubernetes.PreConditions.Verdict.{check_pre_conditions_lem}
use app_lifecycle_kubernetes.NodeFailure.{OwnerKind, tally_pods, select_local, resolve_owner}
use app_lifecycle_kubernetes.NodeFailure.Tally.{Observed, pods_of, failed_pods_of}
use app_lifecycle_kubernetes.NodeFailure.Select.{observe, select_local-tally_pods}
use app_lifecycle_kubernetes.NodeFailure.Degraded.{}
use app_lifecycle_kubernetes.Throttle.Clear.{max_wait_time, wait_for_signal_clear}
use app_lifecycle_kubernetes.Throttle.Clear.Ends.{wait_for_signal_clear_returns}
use app_lifecycle_kubernetes.Throttle.Wired.Steady.{Ticking}
use app_lifecycle_kubernetes.Throttle.Resume.{Services, deployment, resume_with_adaptive_throttling}
use app_lifecycle_kubernetes.Throttle.Wired.{operator_services}
use app_lifecycle_kubernetes.Throttle.Wired.Returns.{Onward, operator_resume_returns}
use app_lifecycle_kubernetes.Workloads.{}
use app_lifecycle_kubernetes.Examples.Fixtures.{
  policy, web, db, node, pod, throttling, World, client, world,
}

abbrev nodes : List Node
nodes = node "n1" true ∷ node "n2" false ∷ node "n3" false ∷ []

abbrev pods : List Pod
pods = pod "db-0" "w-2" "n1" ∷ pod "x-0" "w-9" "n2" ∷ []

abbrev condition : String → Condition
condition type = record {
  type = type;
  status = true;
  reason = "";
  message = "";
  last_transition_time = 1;
}

abbrev seen : List Observed
seen =
    record { owner = record { kind = OwnerKind.stateful_set; uid = "w-2" }; on_failed = true }
    ∷ record { owner = record { kind = OwnerKind.deployment; uid = "w-1" }; on_failed = false }
    ∷ record { owner = record { kind = OwnerKind.stateful_set; uid = "w-2" }; on_failed = false }
    ∷ []

abbrev db_pods : List Pod
db_pods = pod "db-0" "w-2" "n1" ∷ pod "db-1" "w-2" "n1" ∷ pod "x-0" "w-9" "n2" ∷ []

db_chosen :
    In db (select_local [] (db ∷ []) (tally_pods client [] (db ∷ []) "n1" db_pods [] world).0).1
unfolding select_local tally_pods resolve_owner
db_chosen = here refl

select_local-tally_pods_example :
    (0 < pods_of "w-2" (observe client [] (db ∷ []) "n1" db_pods world))
    × (pods_of "w-2" (observe client [] (db ∷ []) "n1" db_pods world)
        ≡ failed_pods_of "w-2" (observe client [] (db ∷ []) "n1" db_pods world))
select_local-tally_pods_example =
    select_local-tally_pods client [] (db ∷ []) "n1" db_pods world db (inr db_chosen)

abbrev config : PreConditionsConfig
config = record {
  enabled = true;
  app_readiness_checks = "shop.web" ∷ [];
  health_endpoint_checks =
      record { url = "http://db/health"; expected_status_codes = []; timeout_seconds = 0 } ∷ [];
  check_interval = 5;
  timeout_seconds = 60;
  block_priority_chain = none;
}

abbrev guarded : Policy
guarded = record policy { spec = record policy.spec { pre_conditions = some config } }

-- Every endpoint answers with 503.
abbrev http : Http World
http url timeout w = (ok (some 503), w)

web_ready : check_app_readiness client "shop.web" world ≡ (ok true, world)
unfolding check_app_readiness split
web_ready = refl

not_healthy :
    check_health_endpoint http
      (record { url = "http://db/health"; expected_status_codes = []; timeout_seconds = 0 })
      world
    ≡ (ok false, world)
unfolding check_health_endpoint
not_healthy = refl

check_pre_conditions_lem_example :
    (text : String) × (check_pre_conditions client http guarded world ≡ (
      ok (
        all (λ app. true) config.app_readiness_checks
            && all (λ check. false) config.health_endpoint_checks,
        text,
      ),
      world,
    ))
check_pre_conditions_lem_example =
    check_pre_conditions_lem client http (λ app. true) (λ check. false) guarded config world refl
      refl (web_ready, tt) (not_healthy, tt)

abbrev scrape : Scrape World
scrape selector cpu memory source w = (ok ([], pos 0, pos 0), w)

abbrev cache : NodeMetricsCache
cache = record {
  signals = [];
  average_cpu = pos 0;
  average_memory = pos 0;
  fetched_at = 0;
  ttl = 0;
}

clock : Ticking client scrape
clock = record {
  reads = λ w. w.clock;
  now_reads = λ w. refl;
  tick_moves = λ n w h. omega arith;
  steady = record {
    stays = λ w. omega arith;
    onward = λ w v u h k. omega arith;
    retry_goes = λ f h w. h w;
    now_goes = λ w. omega arith;
    sleep_goes = λ n w. omega arith;
    tick_goes = λ n w. omega arith;
    get_policy_goes = λ ns name w. omega arith;
    patch_status_goes = λ p q w. omega arith;
    list_nodes_goes = λ selector w. omega arith;
    list_pods_goes = λ ns w. omega arith;
    scrape_goes = λ selector cpu memory source w. omega arith;
  };
}

wait_for_signal_clear_returns_example :
    (a : Bool × (NodeMetricsCache × World)) × (wait_for_signal_clear client scrape throttling "shop"
        node_not_ready 5 60000000001
        (cache, world)
      ≡ some a)
unfolding clock
wait_for_signal_clear_returns_example =
    wait_for_signal_clear_returns client scrape throttling "shop" clock node_not_ready 5 60000000001
      (cache, world) (omega arith) (unfold max_wait_time in omega arith)

onward : Onward clock
unfolding clock
onward = record {
  get_onward = λ ns name w. omega arith;
  patch_onward = λ before after w. omega arith;
  get_set_onward = λ ns name w. omega arith;
  patch_set_onward = λ before after w. omega arith;
}

abbrev services : Services (NodeMetricsCache × World)
services = operator_services client scrape policy throttling false 5 60000000002

operator_resume_returns_example :
    (a : Result (Unit {0}) × (NodeMetricsCache × World)) × (resume_with_adaptive_throttling services
        throttling
        (deployment web ∷ [])
        60000000002
        (cache, world)
      ≡ some a)
unfolding clock
operator_resume_returns_example =
    operator_resume_returns client scrape policy throttling clock false 5 60000000002
      (deployment web ∷ []) 60000000002 (cache, world) onward (unfold max_wait_time in omega arith)
      (omega arith)

-- ===== src/Examples/Resumes.antt =====
-- A manual resume of a frozen Deployment and a frozen StatefulSet, throttled, in a quiet cluster.
use app_lifecycle_kubernetes.Base.{
  false, ℕ, List, Result, err, wrapped, not_found, take, Option, true, some, [], ◌∷◌, none, ok, ◌≡◌,
  refl,
}
use app_lifecycle_kubernetes.Signals.Collect.{NodeMetricsCache, collect_signals}
use app_lifecycle_kubernetes.Throttle.Resume.{
  Services, WorkloadItem, all_workloads, resume_with_adaptive_throttling, batch_end, process_batch,
}
use app_lifecycle_kubernetes.Throttle.Resume.Trace.{Trace, Stopped}
use app_lifecycle_kubernetes.Throttle.Resume.Ends.{resume_all_logged, resume_part_logged}
use app_lifecycle_kubernetes.Types.{Policy, LifecycleAction, AdaptiveThrottlingConfig}
use app_lifecycle_kubernetes.Override.{check_manual_override}
use app_lifecycle_kubernetes.Base.Int.{pos}
use app_lifecycle_kubernetes.Base.Dict.{lookup}
use app_lifecycle_kubernetes.Base.Decimal.{atoi}
use app_lifecycle_kubernetes.Progress.{update_adaptive_progress}
use app_lifecycle_kubernetes.Workloads.{resume_deployment, resume_once, resume_stateful_set}
use app_lifecycle_kubernetes.Reconcile.{reconcile}
use app_lifecycle_kubernetes.Reconcile.Bookkeeping.{}
use app_lifecycle_kubernetes.Examples.Fixtures.{web, db, World, world, throttling}
use app_lifecycle_kubernetes.Examples.Quiet.{quiet_client}
use app_lifecycle_kubernetes.Throttle.{has_signal, calculate_batch_size}
use app_lifecycle_kubernetes.Throttle.Wired.{operator_services}
use app_lifecycle_kubernetes.Signals.{check_container_restarts}
use app_lifecycle_kubernetes.Examples.Reconciling.{operator, asking}

-- One workload at a time at first, slowed down where containers restart.
abbrev gentle : AdaptiveThrottlingConfig
gentle = record throttling {
  initial_batch_size = 1;
  signal_checks = some (record {
    check_node_ready = none;
    check_node_pressure = none;
    check_pending_pods = none;
    check_node_usage = none;
    check_container_restarts =
        some (record { enabled = true; restart_threshold = 0; slowdown_percent = 25 });
  });
}

abbrev gently : Policy
gently = record (asking LifecycleAction.resume) {
  spec = record (asking LifecycleAction.resume).spec { adaptive_throttling = some gentle };
}

-- The workloads as a freeze leaves them.
abbrev frozen : World
frozen = record world {
  policy = gently;
  deployment = record web {
    annotations = ("team", "red") ∷ ("apps.ops.dev/original-replicas", "3") ∷ [];
    replicas = some (pos 0);
  };
  stateful_set = record db {
    annotations = ("apps.ops.dev/original-replicas", "2") ∷ [];
    replicas = some (pos 0);
  };
}

abbrev resumed : World
resumed = (reconcile operator "ops" "shop" frozen).1

-- The loop alone, with the operations of the source.
abbrev start : NodeMetricsCache × World
start = (operator.metrics_cache frozen, frozen)

abbrev loop_services : Services (NodeMetricsCache × World)
loop_services = operator_services quiet_client operator.scrape gently gentle false 5 5

abbrev frozen_items : List WorkloadItem
frozen_items = all_workloads (frozen.deployment ∷ []) (frozen.stateful_set ∷ [])

abbrev world_of : Option (Result (Unit {0}) × (NodeMetricsCache × World)) → NodeMetricsCache × World
world_of none = start
world_of (some (r, v)) = v

abbrev both_resumed : NodeMetricsCache × World
both_resumed = world_of (resume_with_adaptive_throttling loop_services gentle frozen_items 5 start)

resumes_both :
    resume_with_adaptive_throttling loop_services gentle frozen_items 5 start
    ≡ some (ok tt, both_resumed)
unfolding lookup resume_deployment atoi resume_once resume_with_adaptive_throttling
    operator_services check_manual_override collect_signals check_container_restarts has_signal
    batch_end calculate_batch_size process_batch update_adaptive_progress resume_stateful_set
resumes_both = refl

resume_all_logged_example : Trace loop_services start frozen_items both_resumed
resume_all_logged_example = resume_all_logged loop_services gentle frozen_items 5 start resumes_both

-- The Deployment of the list is in the cluster, and a StatefulSet of another name is not.
abbrev lost_items : List WorkloadItem
lost_items =
    all_workloads (frozen.deployment ∷ []) (record frozen.stateful_set { name = "gone" } ∷ [])

abbrev one_resumed : NodeMetricsCache × World
one_resumed = world_of (resume_with_adaptive_throttling loop_services gentle lost_items 5 start)

stops_after_one :
    resume_with_adaptive_throttling loop_services gentle lost_items 5 start
    ≡ some (err (wrapped "failed to resume statefulset gone" not_found), one_resumed)
unfolding lookup resume_deployment atoi resume_once resume_with_adaptive_throttling
    operator_services check_manual_override collect_signals check_container_restarts has_signal
    batch_end calculate_batch_size process_batch update_adaptive_progress resume_stateful_set
stops_after_one = refl

resume_part_logged_example : (k : ℕ) × Stopped loop_services start (take k lost_items) one_resumed
resume_part_logged_example =
    resume_part_logged loop_services gentle lost_items 5 start stops_after_one

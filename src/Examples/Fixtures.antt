-- ===== src/Examples/Fixtures.antt =====
-- A policy, a workload, a node and a client over a small cluster.
use app_lifecycle_kubernetes.Base.{
  ℕ, suc, ◌+◌, String, Bool, true, false, none, some, [], ◌∷◌, ok, err, not_found, refl,
}
use app_lifecycle_kubernetes.Base.Int.{pos}
use app_lifecycle_kubernetes.Types.{
  Policy, Spec, Status, Phase, LifecycleAction, StartupPolicy, AdaptiveThrottlingConfig,
}
use app_lifecycle_kubernetes.Kube.{
  Workload, Pod, PodPhase, Node, KubeCondition, condition_true, condition_false,
}
use app_lifecycle_kubernetes.Client.{Client, Objects, RetryLaws}

abbrev pub empty_spec : Spec
empty_spec = record {
  target_namespace = "shop";
  selector = none;
  action = LifecycleAction.resume;
  operation_id = "op-1";
  startup_policy = StartupPolicy.resume;
  balance_pods = false;
  balance_window_seconds = 0;
  termination_grace_period_seconds = none;
  startup_node_readiness_policy = none;
  resume_delay = 0;
  resume_priority = 0;
  freeze_delay = 0;
  freeze_priority = 0;
  adaptive_throttling = none;
  pre_conditions = none;
  handle_node_failure = false;
}

abbrev pub empty_status : Status
empty_status = record {
  phase = Phase.idle;
  last_handled_operation_id = "";
  message = "";
  last_startup_at = none;
  last_startup_action = "";
  last_resume_at = none;
  startup_nodes_waited = none;
  startup_ready_nodes = none;
  adaptive_progress = none;
  node_ready_event_detected_at = none;
  node_ready_event_handled_at = none;
  node_failure_event_detected_at = none;
  node_failure_event_handled_at = none;
  failed_node_name = "";
  affected_workloads = [];
  pending_startup_resume = false;
  resume_delay_started_at = none;
  pending_freeze = false;
  freeze_delay_started_at = none;
  last_freeze_at = none;
  pre_conditions_status = none;
  conditions = [];
}

abbrev pub policy : Policy
policy = record {
  metadata = record {
    name = "shop";
    namespace = "ops";
    uid = "p-1";
    creation_timestamp = 10;
    is_deleting = false;
    annotations = [];
  };
  spec = empty_spec;
  status = empty_status;
}

abbrev pub with_operation : String → String → Policy → Policy
with_operation asked handled p = record p {
  spec = record p.spec { operation_id = asked };
  status = record p.status { last_handled_operation_id = handled };
}

-- The same policy under another UID, waiting for its resume with a priority.
abbrev pub waiting : String → ℕ → Policy
waiting uid rank = record policy {
  metadata = record policy.metadata { uid = uid };
  spec = record policy.spec { resume_priority = rank };
  status = record policy.status { pending_startup_resume = true };
}

abbrev pub web : Workload
web = record {
  name = "web";
  namespace = "shop";
  uid = "w-1";
  annotations = ("team", "red") ∷ [];
  replicas = some (pos 3);
  grace_period = some (pos 30);
  template_annotations = [];
  ready_replicas = 3;
  available_replicas = 3;
  current_replicas = 3;
  conditions = [];
}

abbrev pub db : Workload
db = record web { name = "db"; uid = "w-2"; replicas = none; grace_period = none }

abbrev pub condition : String → Bool → KubeCondition
condition type true = record {
  type = type;
  status = condition_true;
  reason = "";
  message = "";
  last_transition_time = 0;
}
condition type false = record {
  type = type;
  status = condition_false;
  reason = "";
  message = "";
  last_transition_time = 0;
}

abbrev pub node : String → Bool → Node
node name ready = record {
  name = name;
  labels = ("node-role.kubernetes.io/worker", "") ∷ [];
  conditions = condition "MemoryPressure" false ∷ condition "Ready" ready ∷ [];
  addresses = [];
  taints = [];
  allocatable_cpu = 4000;
  allocatable_memory = 8000;
}

abbrev pub pod : String → String → String → Pod
pod name owner node_name = record {
  name = name;
  namespace = "shop";
  phase = PodPhase.running;
  is_deleting = false;
  owner_references = record { kind = "StatefulSet"; name = owner; uid = owner } ∷ [];
  node_name = node_name;
  conditions = [];
  container_statuses =
      record { name = "main"; waiting_reason = some "CrashLoopBackOff"; restart_count = 2 } ∷ [];
}

abbrev pub throttling : AdaptiveThrottlingConfig
throttling = record {
  enabled = true;
  initial_batch_size = 4;
  min_batch_size = 2;
  batch_interval = 0;
  signal_checks = some (record {
    check_node_ready = some (record { enabled = true; wait_interval = 10; max_wait_time = 60 });
    check_node_pressure =
        some (record { enabled = false; pressure_types = []; slowdown_percent = 0 });
    check_pending_pods = none;
    check_node_usage = none;
    check_container_restarts =
        some (record { enabled = true; restart_threshold = 0; slowdown_percent = 25 });
  });
  node_selector = none;
  fallback_on_metrics_unavailable = false;
}

-- A cluster with one Deployment, one StatefulSet, one policy and a clock.
pub record World : Type 0 where
  pub deployment : Workload
  pub stateful_set : Workload
  pub policy : Policy
  pub clock : ℕ

abbrev pub store : {A : Type 0} → (World → A) → (A → World → World) → Objects World A
store get put = record {
  get = λ namespace name w. (ok (get w), w);
  patch = λ before after w. (ok tt, put after w);
  list = λ namespace selector w. (ok (get w ∷ []), w);
}

abbrev pub client : Client World
client = record {
  retry_on_conflict = λ f. f;
  context_error = λ w. none;
  now = λ w. (w.clock, w);
  format_time = λ n. "now";
  format_duration = λ n. "a while";
  error_text = λ e. "refused";
  sleep = λ n w. record w { clock = w.clock + n };
  tick = λ n w. (true, record w { clock = suc (w.clock + n) });
  get_policy = λ namespace name w. (ok w.policy, w);
  get_namespace = λ name w. (ok tt, w);
  patch_status = λ before after w. (ok tt, record w { policy = after });
  update_policy = λ after w. (ok tt, record w { policy = after });
  update_status = λ after w. (ok tt, record w { policy = after });
  list_policies = λ w. (ok (w.policy ∷ []), w);
  list_policies_uncached = λ w. (ok (w.policy ∷ []), w);
  deployments = store (λ w. w.deployment) (λ d w. record w { deployment = d });
  stateful_sets = store (λ w. w.stateful_set) (λ s w. record w { stateful_set = s });
  get_replica_set_owners = λ namespace name w. (err not_found, w);
  list_pods = λ namespace w.
      (ok (pod "db-0" "w-2" "n1" ∷ pod "db-1" "w-2" "n1" ∷ pod "x-0" "w-9" "n2" ∷ []), w);
  delete_pod_now = λ p w. (ok tt, w);
  list_nodes = λ selector w. (ok (node "n1" true ∷ node "n2" false ∷ []), w);
  list_nodes_uncached = λ w. (ok (node "n1" true ∷ node "n2" false ∷ []), w);
}

pub client_laws : RetryLaws client
client_laws = record { retry_settled = λ f w settled. refl }

abbrev pub world : World
world = record { deployment = web; stateful_set = db; policy = policy; clock = 5 }

-- ===== src/Signals.antt =====
-- Signals of stress in the cluster: internal/controller/signals.go. Each check lists objects and makes
-- signals of what it sees; `collect_signals` runs the configured checks in turn.
pub mod Checks
pub mod Collect
pub mod Kinds
pub mod Usages
pub mod Json
pub mod Readers
pub mod Scraping
pub mod Enabled
use app_lifecycle_kubernetes.Base.{
  ℕ, suc, ◌*◌, ◌-◌, String, Bool, true, false, not, ◌&&◌, ◌||◌, Option, none, some, List, [], ◌∷◌,
  ◌++◌, Action, Result, ok, err, Error, message, pure, throw, ◌>>=◌, wrapping, ltb, leb, ◌==◌,
  str_eq, if◌then◌else◌, default_if_zero, length, keep,
}
use app_lifecycle_kubernetes.Base.Int.{ℤ, pos}
use app_lifecycle_kubernetes.Base.Decimal.{itoa, number}
use app_lifecycle_kubernetes.Base.Dict.{Dict}
use app_lifecycle_kubernetes.Base.Text.{◌+++◌, contains_folded}
use app_lifecycle_kubernetes.Types.{
  Signal, SignalType, SignalSeverity, node_not_ready, node_pressure, pending_pods,
  container_restarts, AdaptiveThrottlingConfig, SignalChecksConfig, NodeReadyCheckConfig,
  NodePressureCheckConfig, PendingPodsCheckConfig, NodeUsageCheckConfig,
  ContainerRestartsCheckConfig,
}
use app_lifecycle_kubernetes.Kube.{
  Node, NodeAddress, Pod, PodPhase, ContainerStatus, KubeCondition, is_true, is_false,
}
use app_lifecycle_kubernetes.Client.{Client}

-- The address of the first entry of a type.
abbrev first_address : String → List NodeAddress → Option String
first_address type [] = none
first_address type (a ∷ rest) =
    let later = first_address type rest in if str_eq a.type type then some a.address else later

abbrev or_address : Option String → Option String → Option String
or_address (some a) b = some a
or_address none b = b

abbrev or_error : Option String → String → Result String
or_error (some a) s = ok a
or_error none s = err (message s)

-- The internal address of a node, or else its external one.
unfoldable pub get_node_ip : Node → Result String
get_node_ip node =
    or_error
      (or_address (first_address "InternalIP" node.addresses)
        (first_address "ExternalIP" node.addresses))
      ("no IP address found for node " +++ node.name)

-- `ThrottlingMetrics`; its field for a restart latency is never set.
pub record ThrottlingMetrics : Type 0 where
  pub not_ready_nodes : ℕ
  pub pending_pods_count : ℕ
  pub average_cpu_percent : ℤ
  pub average_memory_percent : ℤ
  pub unhealthy_pods : ℕ

abbrev pub no_metrics : ThrottlingMetrics
no_metrics = record {
  not_ready_nodes = 0;
  pending_pods_count = 0;
  average_cpu_percent = pos 0;
  average_memory_percent = pos 0;
  unhealthy_pods = 0;
}

-- The worker nodes, where no selector is given.
abbrev pub or_workers : Option (Dict String) → Dict String
or_workers none = ("node-role.kubernetes.io/worker", "") ∷ []
or_workers (some selector) = selector

-- The first Ready condition decides.
unfoldable pub has_ready : List KubeCondition → Bool
has_ready [] = false
has_ready (c ∷ rest) =
    let later = has_ready rest in if str_eq c.type "Ready" then is_true c.status else later

abbrev not_ready_signal : Node → Signal
not_ready_signal node = record {
  type = node_not_ready;
  severity = SignalSeverity.critical;
  node = node.name;
  condition = "";
  count = 0;
  message = "Node " +++ (node.name +++ " is NotReady");
}

-- The loop over the nodes, with the signals and the count of nodes that are not ready.
unfoldable pub not_ready_nodes : List Node → List Signal × ℕ
unfolding has_ready
not_ready_nodes [] = ([], 0)
not_ready_nodes (node ∷ rest) =
    let (signals, count) = not_ready_nodes rest in
    if has_ready node.conditions
    then (signals, count)
    else (not_ready_signal node ∷ signals, suc count)

unfoldable pub check_node_readiness :
    {W : Type 0} → Client W → Option (Dict String) → Action W (List Signal × ℕ)
unfolding not_ready_nodes
check_node_readiness c selector = do
  nodes ← c.list_nodes (some (or_workers selector))
  pure (not_ready_nodes nodes)

abbrev pressure_signal : Node → String → Signal
pressure_signal node type = record {
  type = node_pressure;
  severity = SignalSeverity.warning;
  node = node.name;
  condition = type;
  count = 0;
  message = "Node " +++ (node.name +++ (" has " +++ type));
}

-- The innermost loop, over the pressure types.
unfoldable pub pressures_of_condition : Node → KubeCondition → List String → List Signal
pressures_of_condition node c [] = []
pressures_of_condition node c (type ∷ rest) =
    let later = pressures_of_condition node c rest in
    if str_eq c.type type && is_true c.status then pressure_signal node type ∷ later else later

unfoldable pub pressures_of_node : Node → List String → List KubeCondition → List Signal
unfolding pressures_of_condition
pressures_of_node node types [] = []
pressures_of_node node types (c ∷ rest) =
    pressures_of_condition node c types ++ pressures_of_node node types rest

unfoldable pub pressures : List String → List Node → List Signal
unfolding pressures_of_node
pressures types [] = []
pressures types (node ∷ rest) = pressures_of_node node types node.conditions ++ pressures types rest

abbrev pub pressure_types_or_default : List String → List String
pressure_types_or_default [] =
    "MemoryPressure" ∷ "DiskPressure" ∷ "PIDPressure" ∷ "NetworkUnavailable" ∷ []
pressure_types_or_default (t ∷ types) = t ∷ types

unfoldable pub check_node_pressure :
    {W : Type 0} → Client W → Option (Dict String) → List String → Action W (List Signal)
unfolding pressures
check_node_pressure c selector types = do
  nodes ← c.list_nodes (some (or_workers selector))
  pure (pressures (pressure_types_or_default types) nodes)

-- A condition that says the pod waits for resources.
unfoldable pub says_insufficient : KubeCondition → Bool
says_insufficient c =
    str_eq c.type "PodScheduled"
    && is_false c.status
    && str_eq c.reason "Unschedulable"
    && (contains_folded "insufficient cpu" c.message
        || contains_folded "insufficient memory" c.message
        || contains_folded "insufficient pods" c.message)

abbrev is_pending : PodPhase → Bool
is_pending PodPhase.pending = true
is_pending _ = false

-- The loop over the conditions, which counts a pod at most once.
unfoldable pub waits_for_resources : List KubeCondition → Bool
unfolding says_insufficient
waits_for_resources [] = false
waits_for_resources (c ∷ rest) =
    let later = waits_for_resources rest in if says_insufficient c then true else later

unfoldable pub count_pending : List Pod → ℕ
unfolding waits_for_resources
count_pending [] = 0
count_pending (pod ∷ rest) =
    let more = count_pending rest in
    if is_pending pod.phase && waits_for_resources pod.conditions then suc more else more

unfoldable pub pending_signal : ℕ → ℕ → Option Signal
pending_signal threshold count =
    if ltb threshold count
    then some (record {
      type = pending_pods;
      severity = SignalSeverity.info;
      node = "";
      condition = "";
      count = count;
      message =
          number count
          +++ (" pods are pending cluster-wide due to resource constraints (threshold: "
              +++ (number threshold +++ ")"));
    })
    else none

unfoldable pub check_pending_pods : {W : Type 0} → Client W → ℕ → Action W (Option Signal × ℕ)
unfolding count_pending pending_signal
check_pending_pods c threshold = do
  pods ← c.list_pods none
  pure (pending_signal threshold (count_pending pods), count_pending pods)

abbrev is_crash_loop : Option String → Bool
is_crash_loop none = false
is_crash_loop (some reason) = str_eq reason "CrashLoopBackOff"

abbrev bool_text : Bool → String
bool_text true = "true"
bool_text false = "false"

abbrev pub is_unhealthy : ℕ → ContainerStatus → Bool
is_unhealthy threshold s = is_crash_loop s.waiting_reason || leb threshold s.restart_count

abbrev restarts_signal : Pod → ContainerStatus → Signal
restarts_signal pod s = record {
  type = container_restarts;
  severity = SignalSeverity.warning;
  node = pod.node_name;
  condition = "";
  count = s.restart_count;
  message =
      "Pod "
      +++ (pod.namespace
          +++ ("/"
              +++ (pod.name
                  +++ (" container "
                      +++ (s.name
                          +++ (" is unhealthy (Restarts: "
                              +++ (number s.restart_count
                                  +++ (", CrashLoop: "
                                      +++ (bool_text (is_crash_loop s.waiting_reason)
                                          +++ ")")))))))));
}

-- The loop over the containers of a pod, which stops at the first unhealthy one.
unfoldable pub first_unhealthy : ℕ → Pod → List ContainerStatus → Option Signal
first_unhealthy threshold pod [] = none
first_unhealthy threshold pod (s ∷ rest) =
    let later = first_unhealthy threshold pod rest in
    if is_unhealthy threshold s then some (restarts_signal pod s) else later

abbrev pub opt_cons_signal : Option Signal → List Signal × ℕ → List Signal × ℕ
opt_cons_signal none r = r
opt_cons_signal (some s) (signals, count) = (s ∷ signals, suc count)

unfoldable pub unhealthy_pods : ℕ → List Pod → List Signal × ℕ
unfolding first_unhealthy
unhealthy_pods threshold [] = ([], 0)
unhealthy_pods threshold (pod ∷ rest) =
    opt_cons_signal (first_unhealthy threshold pod pod.container_statuses)
      (unhealthy_pods threshold rest)

unfoldable pub check_container_restarts :
    {W : Type 0} → Client W → String → ℕ → Action W (List Signal × ℕ)
unfolding unhealthy_pods
check_container_restarts c namespace threshold = do
  pods ← c.list_pods (some namespace)
  pure (unhealthy_pods (default_if_zero 10 threshold) pods)

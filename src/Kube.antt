-- ===== src/Kube.antt =====
-- The fields of the Kubernetes API objects that the source reads or writes. The types themselves are
-- the API library's. Deployments and StatefulSets have the same fields here, so one record serves.
use app_lifecycle_kubernetes.Base.{ℕ, String, Bool, true, false, Option, List}
use app_lifecycle_kubernetes.Base.Int.{ℤ}
use app_lifecycle_kubernetes.Base.Dict.{Dict}

pub data ConditionStatus : Type 0 where
  condition_true condition_false condition_unknown : ConditionStatus

abbrev pub is_true : ConditionStatus → Bool
is_true condition_true = true
is_true _ = false

abbrev pub is_false : ConditionStatus → Bool
is_false condition_false = true
is_false _ = false

pub record KubeCondition : Type 0 where
  pub type : String
  pub status : ConditionStatus
  pub reason : String
  pub message : String
  pub last_transition_time : ℕ

-- A Deployment or a StatefulSet: `replicas` is `Spec.Replicas`, `grace_period` the pod template's
-- `TerminationGracePeriodSeconds`, and the last four are of its status. A StatefulSet's available
-- replicas are not read.
pub record Workload : Type 0 where
  pub name : String
  pub namespace : String
  pub uid : String
  pub annotations : Dict String
  pub replicas : Option ℤ
  pub grace_period : Option ℤ
  pub template_annotations : Dict String
  pub ready_replicas : ℕ
  pub available_replicas : ℕ
  pub current_replicas : ℕ
  pub conditions : List KubeCondition

pub record OwnerReference : Type 0 where
  pub kind : String
  pub name : String
  pub uid : String

pub data PodPhase : Type 0 where
  pending running succeeded failed unknown : PodPhase

-- `waiting_reason` is the reason of `State.Waiting`, where that is set.
pub record ContainerStatus : Type 0 where
  pub name : String
  pub waiting_reason : Option String
  pub restart_count : ℕ

pub record Pod : Type 0 where
  pub name : String
  pub namespace : String
  pub phase : PodPhase
  pub is_deleting : Bool
  pub owner_references : List OwnerReference
  pub node_name : String
  pub conditions : List KubeCondition
  pub container_statuses : List ContainerStatus

pub record NodeAddress : Type 0 where
  pub type : String
  pub address : String

-- The taints are given by their keys. The allocatable quantities are `MilliValue()` of the CPU and `Value()` of the memory.
pub record Node : Type 0 where
  pub name : String
  pub labels : Dict String
  pub conditions : List KubeCondition
  pub addresses : List NodeAddress
  pub taints : List String
  pub allocatable_cpu : ℕ
  pub allocatable_memory : ℕ

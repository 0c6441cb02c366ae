-- ===== src/NodeFailure.antt =====
-- Node failures: internal/controller/node_failure.go. Which workloads run on the failed node alone,
-- the scale-down of these, and the Degraded condition.
pub mod Tally
pub mod Select
pub mod Degraded
pub mod Startup
use app_lifecycle_kubernetes.Base.{
  ℕ, ◌+◌, String, Bool, true, false, not, ◌&&◌, ◌||◌, Option, none, some, List, [], ◌∷◌, ◌++◌,
  Action, Result, ok, err, pure, wrapping, logged, ◌>>=◌, ◌==◌, str_eq, keep, is_some,
  if◌then◌else◌,
}
use app_lifecycle_kubernetes.Base.Text.{◌+++◌}
use app_lifecycle_kubernetes.Types.{Policy, is_frozen}
use app_lifecycle_kubernetes.Kube.{Workload, Pod, PodPhase, OwnerReference}
use app_lifecycle_kubernetes.Client.{Client}
use app_lifecycle_kubernetes.Workloads.{freeze_deployment, freeze_stateful_set}

-- The kind of a pod's owner as the code names it; `none` is the empty text of an unmanaged pod.
pub data OwnerKind : Type 0 where
  deployment stateful_set : OwnerKind

pub record Owner : Type 0 where
  pub kind : OwnerKind
  pub uid : String

-- The first Deployment among the owners of a ReplicaSet.
unfoldable pub parent_deployment : List OwnerReference → Option Owner
parent_deployment [] = none
parent_deployment (r ∷ rest) =
    let later = parent_deployment rest in
    if str_eq r.kind "Deployment" then some (record { kind = deployment; uid = r.uid }) else later

-- The owner through a ReplicaSet: none where that has no Deployment as a parent.
unfoldable pub owner_through_set :
    {W : Type 0} → Client W → String → String → Action W (Option Owner)
unfolding parent_deployment
owner_through_set c namespace name = do
  owners ← wrapping ("failed to get ReplicaSet " +++ name) (c.get_replica_set_owners namespace name)
  pure (parent_deployment owners)

-- `resolveWorkloadOwnerUID`, the loop over the owner references: the first ReplicaSet or StatefulSet
-- decides.
unfoldable pub resolve_owner :
    {W : Type 0} → Client W → String → List OwnerReference → Action W (Option Owner)
unfolding owner_through_set
resolve_owner c namespace [] w = (ok none, w)
resolve_owner c namespace (ref ∷ rest) w =
    let later = resolve_owner c namespace rest w in
    if str_eq ref.kind "ReplicaSet"
    then owner_through_set c namespace ref.name w
    else if str_eq ref.kind "StatefulSet"
    then (ok (some (record { kind = stateful_set; uid = ref.uid })), w)
    else later

-- `workloadEntry`: the counters of one workload.
pub record Entry : Type 0 where
  pub kind : OwnerKind
  pub uid : String
  pub total_pods : ℕ
  pub failed_node_pods : ℕ

abbrev pub counted : Bool → Entry → Entry
counted on_failed e = record e {
  total_pods = e.total_pods + 1;
  failed_node_pods = if on_failed then e.failed_node_pods + 1 else e.failed_node_pods;
}

-- The counting of one pod of an owner, whose entry is made at the first.
unfoldable pub tally : Owner → Bool → List Entry → List Entry
tally o on_failed [] =
    counted on_failed (record { kind = o.kind; uid = o.uid; total_pods = 0; failed_node_pods = 0 })
    ∷ []
tally o on_failed (e ∷ rest) =
    if str_eq e.uid o.uid then counted on_failed e ∷ rest else e ∷ tally o on_failed rest

-- A pod that is done, or on its way out, does not count.
abbrev pub is_done : PodPhase → Bool
is_done PodPhase.succeeded = true
is_done PodPhase.failed = true
is_done _ = false

abbrev pub has_uid : String → List Workload → Bool
has_uid uid [] = false
has_uid uid (w ∷ rest) = str_eq w.uid uid || has_uid uid rest

-- Only pods whose owner the policy selects are counted.
abbrev pub is_allowed : List Workload → List Workload → Owner → Bool
is_allowed deployments stateful_sets (o) = elim o.kind [
  | deployment ↦ has_uid o.uid deployments
  | stateful_set ↦ has_uid o.uid stateful_sets
]

abbrev tally_allowed : List Workload → List Workload → Option Owner → Bool → List Entry → List Entry
tally_allowed deployments stateful_sets none on_failed entries = entries
tally_allowed deployments stateful_sets (some o) on_failed entries =
    if is_allowed deployments stateful_sets o then tally o on_failed entries else entries

-- What one pod adds, once its owner is known; an owner that could not be resolved is skipped.
unfoldable pub tally_result :
    List Workload → List Workload → Result (Option Owner) → Bool → List Entry → List Entry
unfolding tally
tally_result deployments stateful_sets (err e) on_failed entries = entries
tally_result deployments stateful_sets (ok owner) on_failed entries =
    tally_allowed deployments stateful_sets owner on_failed entries

-- The loop over the pods.
unfoldable pub tally_pods :
    {W : Type 0}
    → Client W
    → List Workload
    → List Workload
    → String
    → List Pod
    → List Entry
    → W
    → List Entry × W
unfolding tally_result
tally_pods c deployments stateful_sets failed_node [] entries w = (entries, w)
tally_pods c deployments stateful_sets failed_node (pod ∷ rest) entries w =
    let (owner, w₁) = resolve_owner c pod.namespace pod.owner_references w in
    let on_failed = str_eq pod.node_name failed_node in
    let skipped = is_done pod.phase || pod.is_deleting in
    tally_pods c deployments stateful_sets failed_node rest
      (if skipped then entries else tally_result deployments stateful_sets owner on_failed entries)
      (if skipped then w else w₁)

-- Every pod of the workload is on the failed node.
abbrev pub is_fully_local : Entry → Bool
is_fully_local e = not (e.total_pods == 0) && e.total_pods == e.failed_node_pods

-- The object of a selected workload by its UID; the Go map holds the last one of a UID.
unfoldable pub find_uid : String → List Workload → Option Workload
find_uid uid [] = none
find_uid uid (w ∷ rest) = elim (find_uid uid rest) [
  | some found ↦ some found
  | none ↦ if str_eq w.uid uid then some w else none
]

abbrev pub opt_cons : Option Workload → List Workload → List Workload
opt_cons none ws = ws
opt_cons (some w) ws = w ∷ ws

abbrev pub add_local :
    OwnerKind
    → Option Workload
    → Option Workload
    → List Workload × List Workload
    → List Workload × List Workload
add_local deployment d s (ds, ss) = (opt_cons d ds, ss)
add_local stateful_set d s (ds, ss) = (ds, opt_cons s ss)

-- The loop over the entries. Go visits a map in no fixed order; the model takes the order in which the
-- entries were made.
unfoldable pub select_local :
    List Workload → List Workload → List Entry → List Workload × List Workload
unfolding find_uid
select_local deployments stateful_sets [] = ([], [])
select_local deployments stateful_sets (e ∷ rest) =
    let later = select_local deployments stateful_sets rest in
    if is_fully_local e
    then add_local e.kind (find_uid e.uid deployments) (find_uid e.uid stateful_sets) later
    else later

unfoldable pub find_fully_local_workloads :
    {W : Type 0} → Client W → Policy → String → Action W (List Workload × List Workload)
unfolding tally_pods select_local
find_fully_local_workloads c policy failed_node = do
  deployments ←
      wrapping "failed to list deployments"
        (c.deployments.list policy.spec.target_namespace policy.spec.selector)
  stateful_sets ←
      wrapping "failed to list statefulsets"
        (c.stateful_sets.list policy.spec.target_namespace policy.spec.selector)
  pods ←
      wrapping ("failed to list pods in namespace " +++ policy.spec.target_namespace)
        (c.list_pods (some policy.spec.target_namespace))
  λ w.
      let (entries, w₁) = tally_pods c deployments stateful_sets failed_node pods [] w in
      (ok (select_local deployments stateful_sets entries), w₁)

-- A pod that `forceDeleteTerminatingPods` deletes.
abbrev pub is_stuck : String → Pod → Bool
is_stuck failed_node pod = str_eq pod.node_name failed_node && pod.is_deleting

unfoldable pub delete_stuck : {W : Type 0} → Client W → String → List Pod → W → W
delete_stuck c failed_node [] w = w
delete_stuck c failed_node (pod ∷ rest) w =
    delete_stuck c failed_node rest
      (if is_stuck failed_node pod then logged (c.delete_pod_now pod) w else w)

abbrev on_pods : {W : Type 0} → Client W → String → Result (List Pod) → W → W
on_pods c failed_node (err e) w = w
on_pods c failed_node (ok pods) w = delete_stuck c failed_node pods w

unfoldable pub force_delete_terminating_pods : {W : Type 0} → Client W → Policy → String → W → W
unfolding delete_stuck
force_delete_terminating_pods c policy failed_node w =
    let (pods, w₁) = c.list_pods (some policy.spec.target_namespace) w in
    on_pods c failed_node pods w₁

-- The loop that scales one kind down: a failure is logged and skipped, a success adds the name.
unfoldable pub scale_down :
    {W : Type 0}
    → (Workload → Action W (Unit {0}))
    → String
    → List Workload
    → List String
    → W
    → List String × W
scale_down freeze prefix [] names w = (names, w)
scale_down freeze prefix (x ∷ rest) names w =
    let (done, w₁) = freeze x w in
    scale_down freeze prefix rest
      (elim done [ ok _ ↦ names ++ (prefix +++ x.name) ∷ [] | err e ↦ names ]) w₁

-- Both loops, over Deployments and then over StatefulSets, with no grace period override.
unfoldable pub scale_down_found :
    {W : Type 0} → Client W → List Workload × List Workload → W → List String × W
unfolding scale_down
scale_down_found c (deployments, stateful_sets) w =
    let (names, w₁) = scale_down (λ d. freeze_deployment c d none) "deploy/" deployments [] w in
    scale_down (λ s. freeze_stateful_set c s none) "sts/" stateful_sets names w₁

unfoldable pub scale_down_local : {W : Type 0} → Client W → Policy → Action W (List String)
unfolding find_fully_local_workloads scale_down_found
scale_down_local c policy = do
  found ← find_fully_local_workloads c policy policy.status.failed_node_name
  λ w. let (names, w₁) = scale_down_found c found w in (ok names, w₁)

-- The stuck pods go first; in a frozen namespace there is nothing else to do.
unfoldable pub handle_node_failure_event : {W : Type 0} → Client W → Policy → Action W (List String)
unfolding force_delete_terminating_pods scale_down_local
handle_node_failure_event c policy w =
    let w₁ = force_delete_terminating_pods c policy policy.status.failed_node_name w in
    if is_frozen policy.status.phase then (ok [], w₁) else scale_down_local c policy w₁

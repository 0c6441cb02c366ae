-- ===== src/Nodes.antt =====
-- Counting worker nodes: `isNodeReady`, `countTotalWorkerNodes` and `countReadyWorkerNodes` of
-- internal/controller/namespacelifecyclepolicy_controller.go.
pub mod Counts
pub mod Wait
use app_lifecycle_kubernetes.Base.{
  ℕ, suc, String, Bool, true, false, ◌&&◌, Option, none, some, List, [], ◌∷◌, Action, pure, ◌>>=◌,
  str_eq, keep, length, if◌then◌else◌,
}
use app_lifecycle_kubernetes.Base.Dict.{Dict, lookup}
use app_lifecycle_kubernetes.Kube.{Node, KubeCondition, is_true}
use app_lifecycle_kubernetes.Client.{Client}

-- The loop over the conditions, which returns at the first Ready condition.
unfoldable pub ready_status : List KubeCondition → Bool
ready_status [] = false
ready_status (c ∷ rest) =
    let later = ready_status rest in if str_eq c.type "Ready" then is_true c.status else later

unfoldable pub is_node_ready : Node → Bool
unfolding ready_status
is_node_ready node = ready_status node.conditions

abbrev has_value : Option String → String → Bool
has_value none value = false
has_value (some v) value = str_eq v value

-- The loop over the selector. Go visits the map in no fixed order, which does not matter to the answer.
unfoldable pub matches_selector : Dict String → Node → Bool
matches_selector [] node = true
matches_selector ((key, value) ∷ rest) node =
    let later = matches_selector rest node in
    if has_value (lookup key node.labels) value then later else false

abbrev pub selector_or_workers : Dict String → Dict String
selector_or_workers [] = ("node-role.kubernetes.io/worker", "") ∷ []
selector_or_workers (entry ∷ rest) = entry ∷ rest

-- The counting loop of `countTotalWorkerNodes`.
unfoldable pub count_matching : Dict String → List Node → ℕ
unfolding matches_selector
count_matching selector [] = 0
count_matching selector (node ∷ rest) =
    let more = count_matching selector rest in
    if matches_selector selector node then suc more else more

unfoldable pub count_total_worker_nodes : {W : Type 0} → Client W → Dict String → Action W ℕ
unfolding count_matching
count_total_worker_nodes c selector = do
  nodes ← c.list_nodes none
  pure (count_matching (selector_or_workers selector) nodes)

-- The two loops of `countReadyWorkerNodes`: the filter, and the count of what it leaves.
unfoldable pub filter_nodes : Dict String → List Node → List Node
unfolding matches_selector
filter_nodes selector [] = []
filter_nodes selector (node ∷ rest) =
    let more = filter_nodes selector rest in
    if matches_selector selector node then node ∷ more else more

unfoldable pub count_ready : List Node → ℕ
unfolding is_node_ready
count_ready [] = 0
count_ready (node ∷ rest) =
    let more = count_ready rest in if is_node_ready node then suc more else more

unfoldable pub count_ready_worker_nodes : {W : Type 0} → Client W → Dict String → Action W ℕ
unfolding filter_nodes count_ready
count_ready_worker_nodes c selector = do
  nodes ← c.list_nodes none
  pure (count_ready (filter_nodes (selector_or_workers selector) nodes))

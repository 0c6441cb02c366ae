-- ===== src/Nodes/Counts.antt =====
-- How the two counts of worker nodes stand to each other, and to the readiness signals.
use app_lifecycle_kubernetes.Base.{
  ◌+◌, ◌≤◌, String, true, List, [], ◌∷◌, ◌≡◌, ◌↔◌, refl, arith, all, length, Bool-cases, inl, inr,
}
use app_lifecycle_kubernetes.Base.Dict.{Dict}
use app_lifecycle_kubernetes.Kube.{Node, KubeCondition}
use app_lifecycle_kubernetes.Nodes.{
  ready_status, is_node_ready, matches_selector, count_matching, filter_nodes, count_ready,
}
use app_lifecycle_kubernetes.Signals.{has_ready, not_ready_nodes}

-- Never more nodes are ready than there are.
count_ready-le :
    (selector : Dict String) (nodes : List Node)
    → count_ready (filter_nodes selector nodes) ≤ count_matching selector nodes
unfolding count_ready filter_nodes count_matching
count_ready-le selector [] = omega arith
count_ready-le selector (n ∷ rest) = elim (Bool-cases (matches_selector selector n)) [
  | inl y ↦ rw y (ground (arith, count_ready-le selector rest))
  | inr f ↦ rw f (count_ready-le selector rest)
]

count_eq→all :
    (selector : Dict String) (nodes : List Node)
    → count_ready (filter_nodes selector nodes) ≡ count_matching selector nodes
    → all is_node_ready (filter_nodes selector nodes) ≡ true
unfolding count_ready filter_nodes count_matching
count_eq→all selector [] e = refl
count_eq→all selector (n ∷ rest) e = elim (Bool-cases (matches_selector selector n)) [
  | inl y ↦
      rw y (ground (arith, rw y at e, count_ready-le selector rest, count_eq→all selector rest))
  | inr f ↦ rw f (count_eq→all selector rest (rw f at e))
]

all→count_eq :
    (selector : Dict String) (nodes : List Node)
    → all is_node_ready (filter_nodes selector nodes) ≡ true
    → count_ready (filter_nodes selector nodes) ≡ count_matching selector nodes
unfolding count_ready filter_nodes count_matching
all→count_eq selector [] e = refl
all→count_eq selector (n ∷ rest) e = elim (Bool-cases (matches_selector selector n)) [
  | inl y ↦ rw y (ground (arith, rw y at e, all→count_eq selector rest))
  | inr f ↦ rw f (all→count_eq selector rest (rw f at e))
]

-- Of the same nodes, the count of ready ones never exceeds the total, and the two agree exactly where
-- every node that matches the selector is ready.
pub count_ready_lem :
    (selector : Dict String) (nodes : List Node)
    → (count_ready (filter_nodes selector nodes) ≤ count_matching selector nodes)
      × ((count_ready (filter_nodes selector nodes) ≡ count_matching selector nodes)
          ↔ (all is_node_ready (filter_nodes selector nodes) ≡ true))
count_ready_lem selector nodes =
    (count_ready-le selector nodes, (count_eq→all selector nodes, all→count_eq selector nodes))

has_ready-ready_status :
    (conditions : List KubeCondition) → has_ready conditions ≡ ready_status conditions
unfolding has_ready ready_status
has_ready-ready_status [] = refl
has_ready-ready_status (c ∷ rest) = ground (arith, has_ready-ready_status rest)

-- The readiness signals and the readiness count agree: the nodes without a signal are the ready ones.
pub not_ready_nodes-count_ready :
    (nodes : List Node) → (not_ready_nodes nodes).1 + count_ready nodes ≡ length nodes
unfolding not_ready_nodes count_ready is_node_ready
not_ready_nodes-count_ready [] = refl
not_ready_nodes-count_ready (n ∷ rest) =
    ground (arith, has_ready-ready_status n.conditions, not_ready_nodes-count_ready rest)

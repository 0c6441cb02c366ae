-- ===== src/Signals/Kinds.antt =====
-- Each check makes signals of its own type only.
use app_lifecycle_kubernetes.Base.{
  ℕ, String, Option, none, some, List, [], ◌∷◌, ◌≡◌, refl, arith, Every, Every-append, Bool-cases,
  inl, inr, ltb,
}
use app_lifecycle_kubernetes.Types.{
  Signal, SignalType, node_not_ready, node_pressure, pending_pods, container_restarts,
}
use app_lifecycle_kubernetes.Kube.{Node, Pod, ContainerStatus, KubeCondition}
use app_lifecycle_kubernetes.Signals.{
  has_ready, not_ready_nodes, pressures, pressures_of_node, pressures_of_condition, pending_signal,
  first_unhealthy, unhealthy_pods, is_unhealthy, opt_cons_signal,
}
use app_lifecycle_kubernetes.Signals.Collect.{option_list}

abbrev pub OfType : SignalType → List Signal → Type 0
OfType t signals = Every (λ s. s.type ≡ t) signals

pub not_ready_nodes-OfType : (nodes : List Node) → OfType node_not_ready (not_ready_nodes nodes).0
unfolding not_ready_nodes
not_ready_nodes-OfType [] = tt
not_ready_nodes-OfType (n ∷ rest) = elim (Bool-cases (has_ready n.conditions)) [
  | inl y ↦ rw y (not_ready_nodes-OfType rest)
  | inr f ↦ rw f (refl, not_ready_nodes-OfType rest)
]

pressures_of_condition-OfType :
    (node : Node) (c : KubeCondition) (types : List String)
    → OfType node_pressure (pressures_of_condition node c types)
unfolding pressures_of_condition
pressures_of_condition-OfType node c [] = tt
pressures_of_condition-OfType node c (t ∷ rest) =
    ground (arith, pressures_of_condition-OfType node c rest)

pressures_of_node-OfType :
    (node : Node) (types : List String) (conditions : List KubeCondition)
    → OfType node_pressure (pressures_of_node node types conditions)
unfolding pressures_of_node
pressures_of_node-OfType node types [] = tt
pressures_of_node-OfType node types (c ∷ rest) =
    Every-append _ _ _ (pressures_of_condition-OfType node c types)
      (pressures_of_node-OfType node types rest)

pub pressures-OfType :
    (types : List String) (nodes : List Node) → OfType node_pressure (pressures types nodes)
unfolding pressures
pressures-OfType types [] = tt
pressures-OfType types (n ∷ rest) =
    Every-append _ _ _ (pressures_of_node-OfType n types n.conditions) (pressures-OfType types rest)

pub pending_signal-OfType :
    (threshold count : ℕ) → OfType pending_pods (option_list (pending_signal threshold count))
unfolding pending_signal
pending_signal-OfType threshold count = elim (Bool-cases (ltb threshold count)) [
  | inl y ↦ rw y (refl, tt)
  | inr n ↦ rw n tt
]

opt_cons-OfType :
    (o : Option Signal) (r : List Signal × ℕ)
    → OfType container_restarts (option_list o)
    → OfType container_restarts r.0
    → OfType container_restarts (opt_cons_signal o r).0
opt_cons-OfType none r p q = q
opt_cons-OfType (some s) r p q = (p.0, q)

first_unhealthy-OfType :
    (threshold : ℕ) (pod : Pod) (statuses : List ContainerStatus)
    → OfType container_restarts (option_list (first_unhealthy threshold pod statuses))
unfolding first_unhealthy
first_unhealthy-OfType threshold pod [] = tt
first_unhealthy-OfType threshold pod (s ∷ rest) = elim (Bool-cases (is_unhealthy threshold s)) [
  | inl y ↦ rw y (refl, tt)
  | inr n ↦ rw n (first_unhealthy-OfType threshold pod rest)
]

pub unhealthy_pods-OfType :
    (threshold : ℕ) (pods : List Pod) → OfType container_restarts (unhealthy_pods threshold pods).0
unfolding unhealthy_pods
unhealthy_pods-OfType threshold [] = tt
unhealthy_pods-OfType threshold (p ∷ rest) =
    opt_cons-OfType (first_unhealthy threshold p p.container_statuses) _
      (first_unhealthy-OfType threshold p p.container_statuses)
      (unhealthy_pods-OfType threshold rest)

-- ===== src/Signals/Checks.antt =====
-- What the single checks find.
use app_lifecycle_kubernetes.Base.{
  ℕ, suc, Bool, true, false, not, none, some, List, [], ◌∷◌, map, ◌≡◌, refl, ap, any, keep,
  count_if, length, Bool-cases, inl, inr, ◌⊎◌,
}
use app_lifecycle_kubernetes.Types.{Signal}
use app_lifecycle_kubernetes.Kube.{Node, Pod, ContainerStatus}
use app_lifecycle_kubernetes.Signals.{
  has_ready, not_ready_nodes, is_unhealthy, first_unhealthy, unhealthy_pods,
}

-- The readiness check names exactly the nodes that are not ready, in their order, and its count is the
-- number of its signals.
pub not_ready_nodes_lem :
    (nodes : List Node)
    → (map (λ s. s.node) (not_ready_nodes nodes).0
        ≡ map (λ n. n.name) (keep (λ n. not (has_ready n.conditions)) nodes))
      × ((not_ready_nodes nodes).1 ≡ length (not_ready_nodes nodes).0)
unfolding not_ready_nodes
not_ready_nodes_lem [] = (refl, refl)
not_ready_nodes_lem (n ∷ rest) =
    let (names, count) = not_ready_nodes_lem rest in
    elim (Bool-cases (has_ready n.conditions)) [
      | inl y ↦ rw y (names, count)
      | inr f ↦ rw f (ap (λ t. n.name ∷ t) names, ap suc count)
    ]

is_some-first_unhealthy :
    (threshold : ℕ) (pod : Pod) (statuses : List ContainerStatus)
    → (first_unhealthy threshold pod statuses ≡ none
        × (any (is_unhealthy threshold) statuses ≡ false))
      ⊎ ((s : Signal) × (first_unhealthy threshold pod statuses ≡ some s)
          × (s.node ≡ pod.node_name)
          × (any (is_unhealthy threshold) statuses ≡ true))
unfolding first_unhealthy
is_some-first_unhealthy threshold pod [] = inl (refl, refl)
is_some-first_unhealthy threshold pod (s ∷ rest) = elim (Bool-cases (is_unhealthy threshold s)) [
  | inl y ↦ rw y (inr (_, refl, refl, refl))
  | inr n ↦ rw n (is_some-first_unhealthy threshold pod rest)
]

abbrev is_sick : ℕ → Pod → Bool
is_sick threshold pod = any (is_unhealthy threshold) pod.container_statuses

-- The restart check makes one signal for each pod with an unhealthy container, whatever their number,
-- with the node of that pod, in the order of the pods; its count is the number of these pods.
pub unhealthy_pods_lem :
    (threshold : ℕ) (pods : List Pod)
    → (map (λ s. s.node) (unhealthy_pods threshold pods).0
        ≡ map (λ p. p.node_name) (keep (is_sick threshold) pods))
      × ((unhealthy_pods threshold pods).1 ≡ count_if (is_sick threshold) pods)
unfolding unhealthy_pods
unhealthy_pods_lem threshold [] = (refl, refl)
unhealthy_pods_lem threshold (p ∷ rest) =
    let (nodes, count) = unhealthy_pods_lem threshold rest in
    elim (is_some-first_unhealthy threshold p p.container_statuses) [
      | inl (e, healthy) ↦ rw e (rw healthy (nodes, count))
      | inr (s, e, at, sick) ↦
          rw e (rw sick (rw at (ap (λ t. p.node_name ∷ t) nodes), ap suc count))
    ]

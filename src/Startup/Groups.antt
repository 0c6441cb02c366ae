-- ===== src/Startup/Groups.antt =====
-- The startup freezes in `applyStartupPolicies` of cmd/main.go: policies of one priority go in parallel,
-- each in a goroutine, and a group begins when the one before it is done.
pub mod Held
pub mod Order
use app_lifecycle_kubernetes.Base.{
  ℕ, Bool, Option, List, [], ◌∷◌, ◌++◌, keep, map, ltb, ◌==◌, ◌≡◌, if◌then◌else◌,
}
use app_lifecycle_kubernetes.Types.{Policy}
use app_lifecycle_kubernetes.Client.{Client}
use app_lifecycle_kubernetes.Startup.{Sort}
use app_lifecycle_kubernetes.Nodes.Wait.{NodeSelect}
use app_lifecycle_kubernetes.Startup.Programs.{Program, returned, call}
use app_lifecycle_kubernetes.Startup.Freezing.{
  is_freeze_policy, process_policy_with_delay_and_freeze,
}

-- The policies with `startupPolicy: Freeze`, in their order.
unfoldable pub freeze_policies : List Policy → List Policy
freeze_policies = keep (λ p. is_freeze_policy p.spec.startup_policy)

-- By priority, then by age.
unfoldable pub freezes_before : Policy → Policy → Bool
freezes_before p q =
    if p.spec.freeze_priority == q.spec.freeze_priority
    then ltb p.creation_timestamp q.creation_timestamp
    else ltb p.spec.freeze_priority q.spec.freeze_priority

-- The map from priorities to policies, in the order in which its keys came up.
abbrev pub Groups : Type 0
Groups = List (ℕ × List Policy)

unfoldable pub add_to_group : Policy → Groups → Groups
add_to_group p [] = (p.spec.freeze_priority, p ∷ []) ∷ []
add_to_group p ((n, group) ∷ rest) =
    let later = add_to_group p rest in
    if n == p.spec.freeze_priority then (n, group ++ (p ∷ [])) ∷ rest else (n, group) ∷ later

unfoldable pub group_policies : List Policy → Groups → Groups
unfolding add_to_group
group_policies [] groups = groups
group_policies (p ∷ rest) groups = group_policies rest (add_to_group p groups)

unfoldable pub group_of : ℕ → Groups → List Policy
group_of priority [] = []
group_of priority ((n, group) ∷ rest) =
    let later = group_of priority rest in if n == priority then group else later

-- The keys, `freezePriorityOrder`.
abbrev pub priorities : Groups → List ℕ
priorities groups = map (λ g. g.0) groups

-- The groups in the order in which they run.
unfoldable pub freeze_groups : Sort Policy → Sort ℕ → List Policy → List (List Policy)
unfolding freeze_policies freezes_before group_policies group_of
freeze_groups sort sort_numbers policies =
    let groups = group_policies (sort freezes_before (freeze_policies policies)) [] in
    map (λ n. group_of n groups) (sort_numbers ltb (priorities groups))

-- The goroutine of a policy and what is left of its program.
abbrev pub Goroutine : Type 0 → Type 0
Goroutine W = Policy × Program W (Option (Unit {0}))

-- The groups to come, the goroutines of the group that runs, and the policies whose goroutines ended.
pub record Freezes (W : Type 0) : Type 0 where
  pub waiting : List (List Policy)
  pub running : List (Goroutine W)
  pub ended : List Policy
  pub world : W

abbrev pub launch : {W : Type 0} → Client W → NodeSelect W → ℕ → List Policy → List (Goroutine W)
launch c select fuel = map (λ p. (p, process_policy_with_delay_and_freeze c select fuel p))

-- A step: the next group is launched once `wg.Wait` has returned, a goroutine makes its next call, or
-- one is done.
pub data Step {W : Type 0} (c : Client W) (select : NodeSelect W) (fuel : ℕ) (s t : Freezes W)
    : Type 0 where
  launched :
      (group : List Policy) (later : List (List Policy))
      → s.running ≡ []
      → s.waiting ≡ group ∷ later
      → t ≡ record s { waiting = later; running = launch c select fuel group }
      → Step c select fuel s t
  moved :
      (before after : List (Goroutine W)) (p : Policy) (act : W → W)
      (next : W → Program W (Option (Unit {0})))
      → s.running ≡ before ++ ((p, call act next) ∷ after)
      → t ≡ record s { running = before ++ ((p, next s.world) ∷ after); world = act s.world }
      → Step c select fuel s t
  done :
      (before after : List (Goroutine W)) (p : Policy) (result : Option (Unit {0}))
      → s.running ≡ before ++ ((p, returned result) ∷ after)
      → t ≡ record s { running = before ++ after; ended = s.ended ++ (p ∷ []) }
      → Step c select fuel s t

abbrev pub first_state : {W : Type 0} → List (List Policy) → W → Freezes W
first_state groups w = record { waiting = groups; running = []; ended = []; world = w }

-- Other programs act on the world at any time.
pub data Reach {W : Type 0} (c : Client W) (select : NodeSelect W) (fuel : ℕ) (s : Freezes W)
    : Freezes W → Type 0 where
  start : Reach c select fuel s s
  later :
      {t u : Freezes W} → Reach c select fuel s t → Step c select fuel t u → Reach c select fuel s u
  elsewhere :
      {t : Freezes W} (w : W)
      → Reach c select fuel s t
      → Reach c select fuel s (record t { world = w })

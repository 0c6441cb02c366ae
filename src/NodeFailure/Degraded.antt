-- ===== src/NodeFailure/Degraded.antt =====
-- The Degraded condition of a policy: `setDegradedCondition` and `clearDegradedCondition`.
use app_lifecycle_kubernetes.Base.{
  ℕ, ◌≤◌, String, Bool, true, not, List, [], ◌∷◌, ◌≡◌, refl, arith, str_eq, keep, count_if,
  if◌then◌else◌,
}
use app_lifecycle_kubernetes.Base.Text.{◌+++◌, join}
use app_lifecycle_kubernetes.Types.{Condition}

abbrev pub is_degraded : Condition → Bool
is_degraded c = str_eq c.type "Degraded"

-- The message; the first form is for some affected workloads.
unfoldable pub degraded_message : String → List String → String
degraded_message failed_node [] =
    "Node " +++ failed_node +++ " failed; no workloads were fully local to this node"
degraded_message failed_node (x ∷ rest) =
    "Node " +++ failed_node +++ " failed; scaled down workloads: " +++ join (x ∷ rest) ", "

unfoldable pub new_condition : ℕ → String → List String → Condition
unfolding degraded_message
new_condition now failed_node affected = record {
  type = "Degraded";
  status = true;
  reason = "NodeFailure";
  message = degraded_message failed_node affected;
  last_transition_time = now;
}

-- The loop: the first Degraded condition is replaced, or a new one is appended.
unfoldable pub put_condition : Condition → List Condition → List Condition
put_condition new [] = new ∷ []
put_condition new (c ∷ rest) = if is_degraded c then new ∷ rest else c ∷ put_condition new rest

unfoldable pub set_degraded_condition : ℕ → String → List String → List Condition → List Condition
unfolding put_condition new_condition
set_degraded_condition now failed_node affected conditions =
    put_condition (new_condition now failed_node affected) conditions

unfoldable pub clear_degraded_condition : List Condition → List Condition
clear_degraded_condition conditions = keep (λ c. not (is_degraded c)) conditions

keep-put_condition :
    (new : Condition) (conditions : List Condition)
    → is_degraded new ≡ true
    → keep (λ c. not (is_degraded c)) (put_condition new conditions)
      ≡ keep (λ c. not (is_degraded c)) conditions
unfolding put_condition
keep-put_condition new [] h = ground arith
keep-put_condition new (c ∷ rest) h = ground (arith, keep-put_condition new rest)

count-put_condition :
    (new : Condition) (conditions : List Condition)
    → is_degraded new ≡ true
    → count_if is_degraded conditions ≤ 1
    → count_if is_degraded (put_condition new conditions) ≡ 1
unfolding put_condition
count-put_condition new [] h k = ground arith
count-put_condition new (c ∷ rest) h k = ground (arith, count-put_condition new rest)

-- Setting the condition leaves all others as they are and in their order, and of at most one Degraded
-- condition it makes exactly one.
pub set_degraded_condition_lem :
    (now : ℕ) (failed_node : String) (affected : List String) (conditions : List Condition)
    → count_if is_degraded conditions ≤ 1
    → (clear_degraded_condition (set_degraded_condition now failed_node affected conditions)
        ≡ clear_degraded_condition conditions)
      × (count_if is_degraded (set_degraded_condition now failed_node affected conditions) ≡ 1)
unfolding set_degraded_condition clear_degraded_condition
set_degraded_condition_lem now failed_node affected conditions h =
    (keep-put_condition _ conditions refl, count-put_condition _ conditions refl h)

-- ===== src/Priority.antt =====
-- Ordering of resumes between policies (`isBlockedByHigherPriorityResume`) and the choice of the one
-- policy that manages a namespace (the conflict check at the start of `Reconcile`), of
-- internal/controller/namespacelifecyclepolicy_controller.go.
pub mod Progress
pub mod Conflict
use app_lifecycle_kubernetes.Base.{
  ℕ, String, Bool, true, false, not, ◌&&◌, ◌||◌, List, [], ◌∷◌, Action, pure, ◌>>=◌, any, ltb, ◌==◌,
  default_if_zero, str_eq, if◌then◌else◌, Option, none, some,
}
use app_lifecycle_kubernetes.Types.{Policy, is_failed}
use app_lifecycle_kubernetes.Base.Order.{text_gt}
use app_lifecycle_kubernetes.Client.{Client}

-- The priority number with its default; a lower number goes first.
unfoldable pub resume_rank : Policy → ℕ
resume_rank p = default_if_zero 100 p.spec.resume_priority

-- One turn of the loop: does `other` still hold `policy` back?
unfoldable pub blocks : Policy → Policy → Bool
unfolding resume_rank
blocks policy other =
    if str_eq other.uid policy.uid
    then false
    else if not other.status.pending_startup_resume
    then false
    else ltb (resume_rank other) (resume_rank policy)

-- The loop over all policies, which stops at the first that blocks.
unfoldable pub is_blocked_by : Policy → List Policy → Bool
unfolding blocks
is_blocked_by policy [] = false
is_blocked_by policy (other ∷ rest) =
    let later = is_blocked_by policy rest in if blocks policy other then true else later

unfoldable pub is_blocked_by_higher_priority_resume :
    {W : Type 0} → Client W → Policy → Action W Bool
unfolding is_blocked_by
is_blocked_by_higher_priority_resume c policy = do
  policies ← c.list_policies_uncached
  pure (is_blocked_by policy policies)

-- One turn of the loop over the policies: does `policy` give way to `p`? The older policy wins, and
-- of two that are equally old the one whose name comes first.
unfoldable pub gives_way : Policy → Policy → Bool
gives_way policy p =
    if str_eq p.uid policy.uid
    then false
    else if not (str_eq p.spec.target_namespace policy.spec.target_namespace)
    then false
    else if p.is_deleting
    then false
    else if is_failed p.status.phase
    then false
    else ltb p.creation_timestamp policy.creation_timestamp
      || (policy.creation_timestamp == p.creation_timestamp && text_gt policy.name p.name)

-- The loop, which stops at the first policy that the reconciled one gives way to.
unfoldable pub find_conflict : Policy → List Policy → Option Policy
unfolding gives_way
find_conflict policy [] = none
find_conflict policy (p ∷ rest) =
    let later = find_conflict policy rest in if gives_way policy p then some p else later

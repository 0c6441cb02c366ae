-- ===== src/Priority/Conflict.antt =====
-- Of the policies for one namespace, which may stay active.
use app_lifecycle_kubernetes.Base.{true, false, [], ◌∷◌, none, ◌≡◌, ◌≢◌, ◌⊎◌, arith, str_eq_iff}
use app_lifecycle_kubernetes.Base.Order.{text_gt-asym, text_gt-total}
use app_lifecycle_kubernetes.Types.{Policy, is_failed}
use app_lifecycle_kubernetes.Priority.{gives_way, find_conflict}

-- Two policies that compete for one namespace, neither of them deleted or failed.
pub record Compete (p q : Policy) : Type 0 where
  pub distinct : p.uid ≢ q.uid
  pub same_target : p.spec.target_namespace ≡ q.spec.target_namespace
  pub p_stays : p.is_deleting ≡ false
  pub q_stays : q.is_deleting ≡ false
  pub p_not_failed : is_failed p.status.phase ≡ false
  pub q_not_failed : is_failed q.status.phase ≡ false

-- Of two competing policies that differ in age or in name, exactly one gives way to the other.
pub one_gives_way :
    (p q : Policy)
    → Compete p q
    → (p.creation_timestamp ≢ q.creation_timestamp) ⊎ (p.name ≢ q.name)
    → ((gives_way p q ≡ true) × (gives_way q p ≡ false))
      ⊎ ((gives_way p q ≡ false) × (gives_way q p ≡ true))
unfolding gives_way
one_gives_way p q c differ = ground (
  arith,
  str_eq_iff q.uid p.uid,
  str_eq_iff p.uid q.uid,
  str_eq_iff q.spec.target_namespace p.spec.target_namespace,
  str_eq_iff p.spec.target_namespace q.spec.target_namespace,
  text_gt-asym p.name q.name,
  text_gt-asym q.name p.name,
  text_gt-total p.name q.name,
)

-- Two competing policies of the same age and the same name, which two Kubernetes namespaces can hold,
-- both stay active: neither gives way.
pub namesakes_both_stay :
    (p q : Policy)
    → Compete p q
    → p.creation_timestamp ≡ q.creation_timestamp
    → p.name ≡ q.name
    → (find_conflict p (p ∷ q ∷ []) ≡ none) × (find_conflict q (p ∷ q ∷ []) ≡ none)
unfolding find_conflict
namesakes_both_stay p q c e n = ground (
  arith,
  str_eq_iff q.uid p.uid,
  str_eq_iff p.uid q.uid,
  text_gt-asym p.name q.name,
  text_gt-asym q.name p.name,
)

-- ===== src/Reconcile/Manual/Cluster.antt =====
-- A quiet cluster: only the operator writes, and no call touches what another kind of call stores.
use app_lifecycle_kubernetes.Base.{
  ℕ, String, Bool, Option, Action, Result, ok, err, ◌≡◌, refl, ◌∙◌, ◌>>=◌, and_then, Bool-cases,
  Option-cases, inl, inr, none, some,
}
use app_lifecycle_kubernetes.Types.{Policy, Phase}
use app_lifecycle_kubernetes.Kube.{Workload}
use app_lifecycle_kubernetes.Client.{Client, Objects, RetryLaws}
use app_lifecycle_kubernetes.Progress.{patch_latest, update_status}
use app_lifecycle_kubernetes.Base.Int.{ℤ}
use app_lifecycle_kubernetes.Base.Dict.{lookup}
use app_lifecycle_kubernetes.Base.Decimal.{atoi}
use app_lifecycle_kubernetes.Workloads.{
  annotation_original_replicas, has_zero_replicas, freeze_once, freeze_stateful_set, resume_once,
  resume_counted, resume_noted, resume_stateful_set,
}
use app_lifecycle_kubernetes.Workloads.Quiet.{Stored}
use app_lifecycle_kubernetes.Reconcile.Parts.{update_latest}

abbrev pub View : Type 0 → Type 0
View W = W → String → String → Option Workload

-- The calls on policies, and the clock, leave what is seen alone. A retried call does where each run
-- of it does.
pub record Untouched {W : Type 0} (c : Client W) (see : View W) : Type 0 where
  pub retry_keeps :
      (f : Action W (Unit {0}))
      → ((w : W) → see (f w).1 ≡ see w)
      → (w : W) → see (c.retry_on_conflict f w).1 ≡ see w
  pub get_policy_keeps : (ns name : String) (w : W) → see (c.get_policy ns name w).1 ≡ see w
  pub patch_status_keeps : (p q : Policy) (w : W) → see (c.patch_status p q w).1 ≡ see w
  pub update_status_keeps : (p : Policy) (w : W) → see (c.update_status p w).1 ≡ see w
  pub now_keeps : (w : W) → see (c.now w).1 ≡ see w

pub record QuietCluster {W : Type 0} (c : Client W) : Type 1 where
  pub laws : RetryLaws c
  pub deployments : Stored c.deployments
  pub stateful_sets : Stored c.stateful_sets
  pub deployments_untouched : Untouched c deployments.at
  pub stateful_sets_untouched : Untouched c stateful_sets.at
  pub get_keeps :
      (ns name : String) (w : W)
      → deployments.at (c.stateful_sets.get ns name w).1 ≡ deployments.at w
  pub patch_keeps :
      (before after : Workload) (w : W)
      → deployments.at (c.stateful_sets.patch before after w).1 ≡ deployments.at w

module _ {W : Type 0} {S : Type 0} (see : W → S) where
  -- A call and what follows it.
  and_then-keeps :
      {A B : Type 0} (r : Result A × W) (f : A → Action W B) (w : W)
      → see r.1 ≡ see w
      → ((a : A) (v : W) → see (f a v).1 ≡ see v)
      → see (and_then r f).1 ≡ see w
  and_then-keeps (ok a, v) f w h k = k a v ∙ h
  and_then-keeps (err e, v) f w h k = h

module _ {W : Type 0} {c : Client W} {see : View W} (untouched : Untouched c see) where
  patch_latest-keeps :
      (policy : Policy) (change : Policy → Policy) (w : W)
      → see (patch_latest c policy change w).1 ≡ see w
  unfolding patch_latest
  patch_latest-keeps policy change w =
      untouched.retry_keeps _
        (λ v.
          and_then-keeps see (c.get_policy policy.namespace policy.name v)
            (λ latest. c.patch_status latest (change latest)) v
            (untouched.get_policy_keeps policy.namespace policy.name v)
            (λ latest u. untouched.patch_status_keeps latest (change latest) u))
        w

  pub update_status-keeps :
      (policy : Policy) (phase : Phase) (text : String) (is_startup : Bool) (w : W)
      → see (update_status c policy phase text is_startup w).1 ≡ see w
  unfolding update_status
  update_status-keeps policy phase text is_startup w = patch_latest-keeps policy _ w

  pub update_latest-keeps :
      (policy : Policy) (change : Policy → Policy) (w : W)
      → see (update_latest c policy change w).1 ≡ see w
  unfolding update_latest
  update_latest-keeps policy change w =
      untouched.retry_keeps _
        (λ v.
          and_then-keeps see (c.get_policy policy.namespace policy.name v)
            (λ latest. c.update_status (change latest)) v
            (untouched.get_policy_keeps policy.namespace policy.name v)
            (λ latest u. untouched.update_status_keeps (change latest) u))
        w

module _ {W : Type 0} {c : Client W} {see : View W} (untouched : Untouched c see)
    (objects : Objects W Workload)
    (get_keeps : (ns name : String) (w : W) → see (objects.get ns name w).1 ≡ see w)
    (patch_keeps : (before after : Workload) (w : W)
      → see (objects.patch before after w).1 ≡ see w) where
  -- The calls on one kind of objects, and what is seen of the other.
  retried-keeps :
      (x : Workload) (k : Workload → Action W (Unit {0})) (w : W)
      → ((z : Workload) (v : W) → see (k z v).1 ≡ see v)
      → see (c.retry_on_conflict (objects.get x.namespace x.name >>= k) w).1 ≡ see w
  retried-keeps x k w h =
      untouched.retry_keeps _
        (λ v.
          and_then-keeps see (objects.get x.namespace x.name v) k v (get_keeps x.namespace x.name v)
            h)
        w

  freeze_once-keeps :
      (grace : Option ℕ) (x : Workload) (w : W)
      → see (c.retry_on_conflict (freeze_once objects grace x) w).1 ≡ see w
  unfolding freeze_once
  freeze_once-keeps grace x w = retried-keeps x _ w (λ z v.
      elim (Bool-cases (has_zero_replicas z.replicas)) [
        | inl zero ↦ rw zero refl
        | inr live ↦ rw live (patch_keeps z _ v)
      ])

  resume_counted-keeps :
      (count : Option ℤ) (x : Workload) (w : W) → see (resume_counted c objects count x w).1 ≡ see w
  unfolding resume_counted resume_once
  resume_counted-keeps none x w = refl
  resume_counted-keeps (some count) x w = retried-keeps x _ w (λ z v.
      elim (Option-cases (lookup annotation_original_replicas z.annotations)) [
        | inl free ↦ rw free refl
        | inr (note, noted) ↦ rw noted (patch_keeps z _ v)
      ])

  pub resume_noted-keeps :
      (note : Option String) (x : Workload) (w : W)
      → see (resume_noted c objects note x w).1 ≡ see w
  unfolding resume_noted
  resume_noted-keeps none x w = refl
  resume_noted-keeps (some note) x w = resume_counted-keeps (atoi note) x w

module _ {W : Type 0} {c : Client W} (quiet : QuietCluster c) where
  pub freeze_stateful_set-keeps :
      (x : Workload) (policy : Option Policy) (w : W)
      → quiet.deployments.at (freeze_stateful_set c x policy w).1 ≡ quiet.deployments.at w
  unfolding freeze_stateful_set
  freeze_stateful_set-keeps x policy w =
      freeze_once-keeps quiet.deployments_untouched c.stateful_sets quiet.get_keeps
        quiet.patch_keeps _ x w

  pub resume_stateful_set-keeps :
      (x : Workload) (w : W)
      → quiet.deployments.at (resume_stateful_set c x w).1 ≡ quiet.deployments.at w
  unfolding resume_stateful_set
  resume_stateful_set-keeps x w =
      resume_noted-keeps quiet.deployments_untouched c.stateful_sets quiet.get_keeps
        quiet.patch_keeps _ x w

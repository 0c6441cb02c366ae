-- ===== src/Workloads/Store.antt =====
-- Freezing and resuming through the API client: what is written and what is left alone.
use app_lifecycle_kubernetes.Base.{
  ℕ, String, true, false, Option, none, some, ◌≡◌, ◌≢◌, ◌∙◌, Result, ok, err, conflict, Error,
  message, if◌then◌else◌, Bool-cases, inl, inr,
}
use app_lifecycle_kubernetes.Base.Int.{ℤ}
use app_lifecycle_kubernetes.Base.Dict.{lookup}
use app_lifecycle_kubernetes.Base.Decimal.{itoa, atoi, atoi-itoa}
use app_lifecycle_kubernetes.Kube.{Workload}
use app_lifecycle_kubernetes.Types.{Policy}
use app_lifecycle_kubernetes.Client.{Client, Objects, RetryLaws, retried}
use app_lifecycle_kubernetes.Workloads.{
  annotation_original_replicas, has_zero_replicas, original_replicas, deployment_override,
  frozen_form, freeze_once, freeze_deployment, restored_form, resume_once, resume_noted,
  resume_deployment, resume_stateful_set,
}
use app_lifecycle_kubernetes.Workloads.RoundTrip.{
  IsPlain, frozen_form-note, restored_form-frozen_form, FitsInt32→FitsInt64,
}

ok-ne-conflict : {A : Type 0} (a : A) → ◌≢◌ {A = Result A} (ok a) (err conflict)
ok-ne-conflict a e = cc

module _ {W : Type 0} (objects : Objects W Workload) where
  freeze_once-frozen :
      (override : Option ℕ) (x latest : Workload) (w v : W)
      → objects.get x.namespace x.name w ≡ (ok latest, v)
      → has_zero_replicas latest.replicas ≡ true
      → freeze_once objects override x w ≡ (ok tt, v)
  unfolding freeze_once
  freeze_once-frozen override x latest w v got zero = rw got (rw zero)

  freeze_once-live :
      (override : Option ℕ) (x latest : Workload) (w v : W)
      → objects.get x.namespace x.name w ≡ (ok latest, v)
      → has_zero_replicas latest.replicas ≡ false
      → freeze_once objects override x w ≡ objects.patch latest (frozen_form override latest) v
  unfolding freeze_once
  freeze_once-live override x latest w v got live = rw got (rw live)

  resume_once-frozen :
      (count : ℤ) (x latest : Workload) (w v : W) {note : String}
      → objects.get x.namespace x.name w ≡ (ok latest, v)
      → lookup annotation_original_replicas latest.annotations ≡ some note
      → resume_once objects count x w ≡ objects.patch latest (restored_form count latest) v
  unfolding resume_once
  resume_once-frozen count x latest w v got noted = rw got (rw noted)

module _ {W : Type 0} (c : Client W) (laws : RetryLaws c) where
  -- A freeze reads the Deployment's current state. Where that has no replicas, nothing is written;
  -- where it has some, the frozen form is patched onto it, and the patch's answer, unless it is a
  -- conflict, is the freeze's.
  pub freeze_deployment_lem :
      (d latest : Workload) (policy : Option Policy) (w v u : W) {answer : Result (Unit {0})}
      → c.deployments.get d.namespace d.name w ≡ (ok latest, v)
      → c.deployments.patch latest (frozen_form (deployment_override policy) latest) v ≡ (answer, u)
      → answer ≢ err conflict
      → freeze_deployment c d policy w
        ≡ (if has_zero_replicas latest.replicas then (ok tt, v) else (answer, u))
  unfolding freeze_deployment
  freeze_deployment_lem d latest policy w v u got patched settled =
      elim (Bool-cases (has_zero_replicas latest.replicas)) [
        | inl zero ↦ rw zero (
            retried laws _ w (freeze_once-frozen c.deployments _ d latest w v got zero)
              (ok-ne-conflict tt))
        | inr live ↦ rw live (
            retried laws _ w (freeze_once-live c.deployments _ d latest w v got live ∙ patched)
              settled)
      ]

  -- A Deployment without the operator's note is left alone by a resume: the world is unchanged.
  pub resume_deployment-unnoted :
      (d : Workload) (w : W)
      → lookup annotation_original_replicas d.annotations ≡ none
      → resume_deployment c d w ≡ (ok tt, w)
  unfolding resume_deployment
  resume_deployment-unnoted d w h = rw h

  -- Where the note is no number, the resume fails and the world is unchanged.
  pub resume_deployment-unreadable :
      (d : Workload) (w : W) {note : String}
      → lookup annotation_original_replicas d.annotations ≡ some note
      → atoi note ≡ none
      → (e : Error) × (resume_deployment c d w ≡ (err e, w))
  unfolding resume_deployment
  resume_deployment-unreadable d w h bad =
      (message "strconv.Atoi: invalid syntax or value out of range", rw (h, resume_noted) (rw bad))

  resume_counted-frozen :
      (objects : Objects W Workload) (override : Option ℕ) (x : Workload) (w v u : W)
      {answer : Result (Unit {0})}
      → IsPlain x
      → objects.get x.namespace x.name w ≡ (ok (frozen_form override x), v)
      → objects.patch
          (frozen_form override x)
          (record x { replicas = some (original_replicas x.replicas) })
          v
        ≡ (answer, u)
      → answer ≢ err conflict
      → resume_noted c objects
          (some (itoa (original_replicas x.replicas)))
          (frozen_form override x)
          w
        ≡ (answer, u)
  unfolding resume_noted
  resume_counted-frozen objects override x w v u plain got patched settled =
      rw (atoi-itoa (original_replicas x.replicas) (FitsInt32→FitsInt64 _ plain.count_fits)) (
        retried laws _ w
          (resume_once-frozen objects (original_replicas x.replicas) (frozen_form override x)
              (frozen_form override x) w v (unfold frozen_form in got) (frozen_form-note override x)
            ∙ rw (restored_form-frozen_form override x plain) patched)
          settled)

  -- A resume of a frozen Deployment, read again as it was frozen, patches it back to the object it
  -- was before the freeze, with its own replica count (1 for an absent one).
  pub resume_deployment-frozen :
      (override : Option ℕ) (x : Workload) (w v u : W) {answer : Result (Unit {0})}
      → IsPlain x
      → c.deployments.get x.namespace x.name w ≡ (ok (frozen_form override x), v)
      → c.deployments.patch
          (frozen_form override x)
          (record x { replicas = some (original_replicas x.replicas) })
          v
        ≡ (answer, u)
      → answer ≢ err conflict
      → resume_deployment c (frozen_form override x) w ≡ (answer, u)
  unfolding resume_deployment
  resume_deployment-frozen override x w v u plain got patched settled =
      rw (frozen_form-note override x)
        (resume_counted-frozen c.deployments override x w v u plain got patched settled)

  -- The same for a StatefulSet.
  pub resume_stateful_set-frozen :
      (override : Option ℕ) (x : Workload) (w v u : W) {answer : Result (Unit {0})}
      → IsPlain x
      → c.stateful_sets.get x.namespace x.name w ≡ (ok (frozen_form override x), v)
      → c.stateful_sets.patch
          (frozen_form override x)
          (record x { replicas = some (original_replicas x.replicas) })
          v
        ≡ (answer, u)
      → answer ≢ err conflict
      → resume_stateful_set c (frozen_form override x) w ≡ (answer, u)
  unfolding resume_stateful_set
  resume_stateful_set-frozen override x w v u plain got patched settled =
      rw (frozen_form-note override x)
        (resume_counted-frozen c.stateful_sets override x w v u plain got patched settled)

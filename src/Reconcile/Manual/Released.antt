-- ===== src/Reconcile/Manual/Released.antt =====
-- What a manual resume that ends well has done to the workloads, in a quiet cluster.
use app_lifecycle_kubernetes.Base.{List, ok, ◌≡◌, sym, ap, ◌∙◌, none, refl, Every-map}
use app_lifecycle_kubernetes.Types.{Policy}
use app_lifecycle_kubernetes.Kube.{Workload}
use app_lifecycle_kubernetes.Client.{Client}
use app_lifecycle_kubernetes.Workloads.{resume_deployment, resume_stateful_set}
use app_lifecycle_kubernetes.Workloads.Quiet.{IsNoted}
use app_lifecycle_kubernetes.Workloads.Restored.{
  Pending, RestoredAs, RestoredAs-same, resume_noted-Restores,
}
use app_lifecycle_kubernetes.Reconcile.Parts.{Operator, Requeue, finished, update_latest}
use app_lifecycle_kubernetes.Reconcile.Acts.{resume_now, finish_manual_resume}
use app_lifecycle_kubernetes.Reconcile.Manual.{}
use app_lifecycle_kubernetes.Reconcile.Manual.Loops.{
  each_or_fail-Done, Achieves, Done-achieves, Done-invariant,
}
use app_lifecycle_kubernetes.Reconcile.Manual.Cluster.{
  QuietCluster, update_latest-keeps, resume_stateful_set-keeps,
}
use app_lifecycle_kubernetes.Reconcile.Manual.Outcome.{seen_after, then-world}
use app_lifecycle_kubernetes.Reconcile.Manual.Calm.{
  QuietOperator, AllDue, AllReleased, AllReleased-same, due_sets_same, resume_deployment-keeps,
}

module _ {W : Type 0} {c : Client W} (quiet : QuietCluster c) where
  pub resume_deployment-Achieves :
      Achieves
        (resume_deployment c)
        (λ w x. IsNoted x × Pending quiet.deployments w x)
        (RestoredAs quiet.deployments)
  unfolding resume_deployment
  resume_deployment-Achieves =
      let done =
        λ (x : Workload) (w u : W) (a : IsNoted x × Pending quiet.deployments w x)
            (h : resume_deployment c x w ≡ (ok tt, u)).
          resume_noted-Restores c quiet.laws quiet.deployments _ x w u refl a.0 a.1 h in
      record {
        achieves = λ x w u a h. (done x w u a h).restored;
        keeps = λ x y w u a h. (done x w u a h).keeps_restored y;
        keeps_asked = λ x y w u a h b. (b.0, (done x w u a h).keeps_pending y b.1);
      }

  pub resume_stateful_set-Achieves :
      Achieves
        (resume_stateful_set c)
        (λ w x. IsNoted x × Pending quiet.stateful_sets w x)
        (RestoredAs quiet.stateful_sets)
  unfolding resume_stateful_set
  resume_stateful_set-Achieves =
      let done =
        λ (x : Workload) (w u : W) (a : IsNoted x × Pending quiet.stateful_sets w x)
            (h : resume_stateful_set c x w ≡ (ok tt, u)).
          resume_noted-Restores c quiet.laws quiet.stateful_sets _ x w u refl a.0 a.1 h in
      record {
        achieves = λ x w u a h. (done x w u a h).restored;
        keeps = λ x y w u a h. (done x w u a h).keeps_restored y;
        keeps_asked = λ x y w u a h b. (b.0, (done x w u a h).keeps_pending y b.1);
      }

module _ {W : Type 0} (op : Operator W) (quiet : QuietCluster op.client) (policy : Policy) where
  pub finish_manual_resume-world :
      (found : List Workload × List Workload) (w u : W) (r : Requeue)
      → finish_manual_resume op.client policy found w ≡ (ok r, u)
      → (quiet.deployments.at u ≡ quiet.deployments.at w)
        × (quiet.stateful_sets.at u ≡ quiet.stateful_sets.at w)
  unfolding finish_manual_resume
  finish_manual_resume-world found w u r h =
      let v = (op.client.now w).1 in
      let last = then-world (update_latest op.client policy _ v) finished h in
      (
        sym (ap quiet.deployments.at last)
            ∙ update_latest-keeps quiet.deployments_untouched policy _ v
            ∙ quiet.deployments_untouched.now_keeps w,
        sym (ap quiet.stateful_sets.at last)
            ∙ update_latest-keeps quiet.stateful_sets_untouched policy _ v
            ∙ quiet.stateful_sets_untouched.now_keeps w,
      )

  pub resume_now-AllReleased :
      QuietOperator op quiet
      → (found : List Workload × List Workload) (w u : W) (r : Requeue) → AllDue quiet w found
      → resume_now op policy found none w ≡ (ok r, u)
      → AllReleased quiet u found
  unfolding resume_now
  resume_now-AllReleased calm found w u r (due, due_sets) h =
      let (v, first, h₁) =
        each_or_fail-Done op.client policy _ (resume_deployment op.client) found.0 _ w u h in
      let (z, second, h₂) =
        each_or_fail-Done op.client policy _ (resume_stateful_set op.client) found.1 _ v u h₁ in
      let seen : quiet.deployments.at z ≡ quiet.deployments.at v =
        seen_after quiet (resume_stateful_set-keeps quiet) second in
      let unseen : quiet.stateful_sets.at v ≡ quiet.stateful_sets.at w =
        Done-invariant (λ t. quiet.stateful_sets.at t ≡ quiet.stateful_sets.at w)
          (λ x t s e i.
            sym (ap (λ q. quiet.stateful_sets.at q.1) e)
            ∙ resume_deployment-keeps op quiet calm x t
            ∙ i)
          first refl in
      AllReleased-same quiet z u found (finish_manual_resume-world found z u r h₂) (
        Every-map (RestoredAs quiet.deployments v) (RestoredAs quiet.deployments z) found.0
            (λ x. RestoredAs-same quiet.deployments v z x seen)
            (Done-achieves (resume_deployment-Achieves quiet) first due),
        Done-achieves (resume_stateful_set-Achieves quiet) second
            (due_sets_same quiet w v found.1 unseen due_sets),
      )

-- ===== src/Reconcile/Manual/Calm.antt =====
-- A quiet cluster as the operator meets it: which calls leave the stored workloads alone, and what the
-- lists tell. With it, the workloads that a resume may find.
use app_lifecycle_kubernetes.Base.{String, Option, List, ok, ◌≡◌, Every, Every-map}
use app_lifecycle_kubernetes.Types.{LabelSelector}
use app_lifecycle_kubernetes.Kube.{Workload}
use app_lifecycle_kubernetes.Client.{Client}
use app_lifecycle_kubernetes.Workloads.{resume_deployment}
use app_lifecycle_kubernetes.Workloads.Quiet.{IsNoted}
use app_lifecycle_kubernetes.Workloads.Restored.{
  Fresh, Pending, RestoredAs, Pending-same, RestoredAs-same,
}
use app_lifecycle_kubernetes.Signals.Collect.{NodeMetricsCache}
use app_lifecycle_kubernetes.PreConditions.Looks.{Looking}
use app_lifecycle_kubernetes.Throttle.Wired.Steady.{Steady}
use app_lifecycle_kubernetes.Reconcile.Parts.{Operator}
use app_lifecycle_kubernetes.Reconcile.Manual.{}
use app_lifecycle_kubernetes.Reconcile.Manual.Cluster.{QuietCluster, resume_noted-keeps}

-- The same Deployments and StatefulSets are stored.
abbrev pub SameStored : {W : Type 0} {c : Client W} → QuietCluster c → W → W → Type 0
SameStored quiet w u =
    (quiet.deployments.at u ≡ quiet.deployments.at w)
    × (quiet.stateful_sets.at u ≡ quiet.stateful_sets.at w)

-- Reads, the clock, the waits, the scrape, the HTTP requests and the reconciler's cache leave the stored
-- workloads alone, and so do the writes of Deployments what is stored of the StatefulSets. A list gives
-- the objects as they are stored.
pub record QuietOperator {W : Type 0} (op : Operator W) (quiet : QuietCluster op.client)
    : Type 0 where
  pub steady : Steady op.client op.scrape (SameStored quiet)
  pub looking : Looking op.client op.http op.select (SameStored quiet)
  pub cache_keeps :
      (cache : NodeMetricsCache) (w : W) → SameStored quiet w (op.with_metrics_cache cache w)
  pub patch_keeps :
      (before after : Workload) (w : W)
      → quiet.stateful_sets.at (op.client.deployments.patch before after w).1
        ≡ quiet.stateful_sets.at w
  pub list_fresh :
      (ns : String) (selector : Option LabelSelector) (w v : W) (xs : List Workload)
      → op.client.deployments.list ns selector w ≡ (ok xs, v)
      → Every (Fresh quiet.deployments v) xs
  pub list_sets_fresh :
      (ns : String) (selector : Option LabelSelector) (w v : W) (xs : List Workload)
      → op.client.stateful_sets.list ns selector w ≡ (ok xs, v)
      → Every (Fresh quiet.stateful_sets v) xs
  pub list_sets_keeps :
      (ns : String) (selector : Option LabelSelector) (w : W)
      → quiet.deployments.at (op.client.stateful_sets.list ns selector w).1 ≡ quiet.deployments.at w

module _ {W : Type 0} {c : Client W} (quiet : QuietCluster c) where
  -- Workloads with the note of a freeze, stored as they were listed or restored since.
  abbrev pub AllDue : W → List Workload × List Workload → Type 0
  AllDue w found =
      Every (λ x. IsNoted x × Pending quiet.deployments w x) found.0
      × Every (λ x. IsNoted x × Pending quiet.stateful_sets w x) found.1

  pub due_same :
      (w u : W) (xs : List Workload)
      → quiet.deployments.at u ≡ quiet.deployments.at w
      → Every (λ x. IsNoted x × Pending quiet.deployments w x) xs
      → Every (λ x. IsNoted x × Pending quiet.deployments u x) xs
  due_same w u xs same =
      Every-map _ _ xs (λ x h. (h.0, Pending-same quiet.deployments w u x same h.1))

  pub due_sets_same :
      (w u : W) (xs : List Workload)
      → quiet.stateful_sets.at u ≡ quiet.stateful_sets.at w
      → Every (λ x. IsNoted x × Pending quiet.stateful_sets w x) xs
      → Every (λ x. IsNoted x × Pending quiet.stateful_sets u x) xs
  due_sets_same w u xs same =
      Every-map _ _ xs (λ x h. (h.0, Pending-same quiet.stateful_sets w u x same h.1))

  pub AllDue-same :
      (w u : W) (found : List Workload × List Workload)
      → SameStored quiet w u
      → AllDue w found
      → AllDue u found
  AllDue-same w u found (same, same_sets) (due, due_sets) =
      (due_same w u found.0 same due, due_sets_same w u found.1 same_sets due_sets)

  -- All workloads of two lists are stored without the note of a freeze and with the replicas it told.
  abbrev pub AllReleased : W → List Workload × List Workload → Type 0
  AllReleased w found =
      Every (RestoredAs quiet.deployments w) found.0
      × Every (RestoredAs quiet.stateful_sets w) found.1

  pub AllReleased-same :
      (w u : W) (found : List Workload × List Workload)
      → SameStored quiet w u
      → AllReleased w found
      → AllReleased u found
  AllReleased-same w u found (same, same_sets) (free, free_sets) = (
    Every-map _ _ found.0 (λ x. RestoredAs-same quiet.deployments w u x same) free,
    Every-map _ _ found.1 (λ x. RestoredAs-same quiet.stateful_sets w u x same_sets) free_sets,
  )

-- A resume of a Deployment leaves the StatefulSets alone.
pub resume_deployment-keeps :
    {W : Type 0} (op : Operator W) (quiet : QuietCluster op.client) (calm : QuietOperator op quiet)
    (x : Workload) (w : W)
    → quiet.stateful_sets.at (resume_deployment op.client x w).1 ≡ quiet.stateful_sets.at w
unfolding resume_deployment
resume_deployment-keeps op quiet calm x w =
    resume_noted-keeps quiet.stateful_sets_untouched op.client.deployments
      (λ ns name v. (calm.looking.get_goes ns name v).1) calm.patch_keeps _ x w

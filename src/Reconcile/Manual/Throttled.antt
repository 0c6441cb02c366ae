-- ===== src/Reconcile/Manual/Throttled.antt =====
-- What a throttled resume that ends well has done to the workloads, in a quiet cluster.
use app_lifecycle_kubernetes.Base.{
  ℕ, Bool, Option, none, some, List, [], ◌∷◌, ◌++◌, map, ok, err, Result, ◌≡◌, refl, ap, subst,
  Every, Every-append, Every-parts, Every-map,
}
use app_lifecycle_kubernetes.Types.{Policy, AdaptiveThrottlingConfig}
use app_lifecycle_kubernetes.Kube.{Workload}
use app_lifecycle_kubernetes.Workloads.{resume_deployment, resume_stateful_set}
use app_lifecycle_kubernetes.Workloads.Quiet.{IsNoted}
use app_lifecycle_kubernetes.Workloads.Restored.{Pending, Pending-same, RestoredAs, RestoredAs-same}
use app_lifecycle_kubernetes.Signals.Collect.{NodeMetricsCache}
use app_lifecycle_kubernetes.Throttle.Resume.{
  WorkloadItem, deployment, stateful_set, all_workloads, Services, resume_item,
}
use app_lifecycle_kubernetes.Throttle.Resume.Tally.{Tally}
use app_lifecycle_kubernetes.Throttle.Resume.Ends.{resume_builds_all}
use app_lifecycle_kubernetes.Throttle.Wired.{operator_services}
use app_lifecycle_kubernetes.Throttle.Wired.Steady.{
  check_manual_override-Steps, report_at-Goes, complete_progress-Steps,
}
use app_lifecycle_kubernetes.Throttle.Wired.Steady.Checks.{signals-Goes}
use app_lifecycle_kubernetes.Throttle.Wired.Steady.Waits.{wait_ready-Goes}
use app_lifecycle_kubernetes.Reconcile.Parts.{Operator, put_cache, resume_throttled}
use app_lifecycle_kubernetes.Reconcile.Manual.Cluster.{QuietCluster, resume_stateful_set-keeps}
use app_lifecycle_kubernetes.Reconcile.Manual.Released.{
  resume_deployment-Achieves, resume_stateful_set-Achieves,
}
use app_lifecycle_kubernetes.Reconcile.Manual.Calm.{
  SameStored, QuietOperator, AllDue, AllDue-same, AllReleased, AllReleased-same,
  resume_deployment-keeps,
}

-- A property of each workload of both lists, told of the list of all.
module _ (P : WorkloadItem → Type 0) where
  of_map :
      (mk : Workload → WorkloadItem) (xs : List Workload)
      → Every P (map mk xs)
      → Every (λ x. P (mk x)) xs
  of_map mk [] h = tt
  of_map mk (x ∷ xs) (h, more) = (h, of_map mk xs more)

  to_map :
      (mk : Workload → WorkloadItem) (xs : List Workload)
      → Every (λ x. P (mk x)) xs
      → Every P (map mk xs)
  to_map mk [] h = tt
  to_map mk (x ∷ xs) (h, more) = (h, to_map mk xs more)

  joined :
      (ds ss : List Workload)
      → Every (λ x. P (deployment x)) ds
      → Every (λ x. P (stateful_set x)) ss
      → Every P (all_workloads ds ss)
  joined ds ss h k =
      Every-append P (map deployment ds) (map stateful_set ss) (to_map deployment ds h)
        (to_map stateful_set ss k)

  apart :
      (ds ss : List Workload)
      → Every P (all_workloads ds ss)
      → Every (λ x. P (deployment x)) ds × Every (λ x. P (stateful_set x)) ss
  apart ds ss h =
      let (a, b) = Every-parts P (map deployment ds) (map stateful_set ss) h in
      (of_map deployment ds a, of_map stateful_set ss b)

-- A throttled resume that answers is a run of the loop, which leaves the cache behind.
put_cache-ok :
    {W : Type 0} (op : Operator W) (w : W) (r : Option (Result (Unit {0}) × (NodeMetricsCache × W)))
    {u : W}
    → put_cache op w r ≡ (ok tt, u)
    → (v : NodeMetricsCache × W) × (r ≡ some (ok tt, v)) × (op.with_metrics_cache v.0 v.1 ≡ u)
put_cache-ok op w none h = cc h
put_cache-ok op w (some (ok x, (cache, v))) h = ((cache, v), refl, ap (λ t. t.1) h)
put_cache-ok op w (some (err e, v)) h = cc h

-- What each of a list has because all of the list have it.
each_of :
    {W : Type 0} (P : W → WorkloadItem → Type 0) (all xs : List WorkloadItem)
    → ((w : W) → Every (P w) all → Every (P w) xs)
    → Every (λ y. (w : W) → Every (P w) all → P w y) xs
each_of P all [] h = tt
each_of P all (x ∷ xs) h = (λ w a. (h w a).0, each_of P all xs (λ w a. (h w a).1))

module _ {W : Type 0} (op : Operator W) (quiet : QuietCluster op.client)
    (calm : QuietOperator op quiet) where
  abbrev Restored : W → WorkloadItem → Type 0
  Restored w (deployment x) = RestoredAs quiet.deployments w x
  Restored w (stateful_set x) = RestoredAs quiet.stateful_sets w x

  abbrev Due : W → WorkloadItem → Type 0
  Due w (deployment x) = IsNoted x × Pending quiet.deployments w x
  Due w (stateful_set x) = IsNoted x × Pending quiet.stateful_sets w x

  Restored-same :
      (w u : W) → SameStored quiet w u → (x : WorkloadItem) → Restored w x → Restored u x
  Restored-same w u same (deployment x) = RestoredAs-same quiet.deployments w u x same.0
  Restored-same w u same (stateful_set x) = RestoredAs-same quiet.stateful_sets w u x same.1

  Due-still : (w u : W) → SameStored quiet w u → (x : WorkloadItem) → Due w x → Due u x
  Due-still w u same (deployment x) (noted, h) =
      (noted, Pending-same quiet.deployments w u x same.0 h)
  Due-still w u same (stateful_set x) (noted, h) =
      (noted, Pending-same quiet.stateful_sets w u x same.1 h)

  module _ (policy : Policy) (config : AdaptiveThrottlingConfig) (is_startup : Bool)
      (start : ℕ) where
    abbrev services : Services (NodeMetricsCache × W)
    services = operator_services op.client op.scrape policy config is_startup start op.clear_fuel

    -- A resume that succeeds restores its workload, keeps every other restored, and leaves what is due.
    item-restores :
        (item : WorkloadItem) (cache : NodeMetricsCache) (w : W)
        → Due w item
        → (resume_item services item (cache, w)).0 ≡ ok tt
        → Restored (resume_item services item (cache, w)).1.1 item
    unfolding operator_services resume_item
    item-restores (deployment x) cache w due e =
        (resume_deployment-Achieves quiet).achieves x w _ due
          (λ i. (e i, (resume_deployment op.client x w).1))
    item-restores (stateful_set x) cache w due e =
        (resume_stateful_set-Achieves quiet).achieves x w _ due
          (λ i. (e i, (resume_stateful_set op.client x w).1))

    item-keeps :
        (item other : WorkloadItem) (cache : NodeMetricsCache) (w : W)
        → Due w item
        → (resume_item services item (cache, w)).0 ≡ ok tt
        → Restored w other
        → Restored (resume_item services item (cache, w)).1.1 other
    unfolding operator_services resume_item
    item-keeps (deployment x) (deployment y) cache w due e =
        (resume_deployment-Achieves quiet).keeps x y w _ due
          (λ i. (e i, (resume_deployment op.client x w).1))
    item-keeps (deployment x) (stateful_set y) cache w due e =
        RestoredAs-same quiet.stateful_sets w _ y (resume_deployment-keeps op quiet calm x w)
    item-keeps (stateful_set x) (stateful_set y) cache w due e =
        (resume_stateful_set-Achieves quiet).keeps x y w _ due
          (λ i. (e i, (resume_stateful_set op.client x w).1))
    item-keeps (stateful_set x) (deployment y) cache w due e =
        RestoredAs-same quiet.deployments w _ y (resume_stateful_set-keeps quiet x w)

    item-leaves :
        (item other : WorkloadItem) (cache : NodeMetricsCache) (w : W)
        → Due w item
        → (resume_item services item (cache, w)).0 ≡ ok tt
        → Due w other
        → Due (resume_item services item (cache, w)).1.1 other
    unfolding operator_services resume_item
    item-leaves (deployment x) (deployment y) cache w due e other =
        (resume_deployment-Achieves quiet).keeps_asked x y w _ due
          (λ i. (e i, (resume_deployment op.client x w).1)) other
    item-leaves (deployment x) (stateful_set y) cache w due e (noted, h) = (
      noted,
      Pending-same quiet.stateful_sets w _ y (resume_deployment-keeps op quiet calm x w) h,
    )
    item-leaves (stateful_set x) (stateful_set y) cache w due e other =
        (resume_stateful_set-Achieves quiet).keeps_asked x y w _ due
          (λ i. (e i, (resume_stateful_set op.client x w).1)) other
    item-leaves (stateful_set x) (deployment y) cache w due e (noted, h) =
        (noted, Pending-same quiet.deployments w _ y (resume_stateful_set-keeps quiet x w) h)

    module _ (all : List WorkloadItem) where
      abbrev Member : WorkloadItem → Type 0
      Member y = (w : W) → Every (Due w) all → Due w y

      -- All workloads stay due, and those that were resumed are restored.
      abbrev Held : List WorkloadItem → W → Type 0
      Held xs w = Every Member xs → Every (Due w) all × Every (Restored w) xs

      keeps : (w u : W) (xs : List WorkloadItem) → SameStored quiet w u → Held xs w → Held xs u
      keeps w u xs same held members =
          let (due, restored) = held members in
          (
            Every-map (Due w) (Due u) all (Due-still w u same) due,
            Every-map (Restored w) (Restored u) xs (Restored-same w u same) restored,
          )

      adds :
          (item : WorkloadItem) (xs : List WorkloadItem) (v : NodeMetricsCache × W)
          → (resume_item services item v).0 ≡ ok tt
          → Held xs v.1
          → Held (xs ++ item ∷ []) (resume_item services item v).1.1
      adds item xs (cache, w) e held members =
          let (before, (now, end)) = Every-parts Member xs (item ∷ []) members in
          let (due, restored) = held before in
          let after = (resume_item services item (cache, w)).1.1 in
          let here = now w due in
          (
            Every-map (Due w) (Due after) all (λ y. item-leaves item y cache w here e) due,
            Every-append (Restored after) xs (item ∷ [])
                (Every-map (Restored w) (Restored after) xs (λ y. item-keeps item y cache w here e)
                  restored)
                (item-restores item cache w here e, tt),
          )

      unfoldable tally : Tally services
      unfolding operator_services
      tally = record {
        Held = λ xs v. Held xs v.1;
        Part = λ xs v. Unit {0};
        to_part = λ xs v held. tt;
        override_keeps =
            λ xs v. keeps v.1 _ xs (check_manual_override-Steps calm.steady policy is_startup v);
        collect_keeps =
            λ xs v. keeps v.1 _ xs (signals-Goes calm.steady config policy.spec.target_namespace v);
        wait_keeps = λ xs v u b e. keeps v.1 u.1 xs (
            wait_ready-Goes calm.steady config policy.spec.target_namespace _ start op.clear_fuel v
              u b e);
        report_keeps = λ resumed total size signals text xs v.
            keeps v.1 _ xs (report_at-Goes calm.steady policy resumed total size signals text v.1);
        sleep_keeps = λ n xs v. keeps v.1 _ xs (calm.steady.sleep_goes n v.1);
        complete_keeps = λ total size xs v.
            keeps v.1 _ xs (complete_progress-Steps calm.steady policy total size v.1);
        resume_adds = adds;
        failure_leaves = λ item xs v e h held. tt;
      }

  -- A throttled resume of due workloads that answers without an error has restored them all.
  pub resume_throttled-AllReleased :
      (policy : Policy) (config : AdaptiveThrottlingConfig) (is_startup : Bool)
      (found : List Workload × List Workload) (w u : W)
      → AllDue quiet w found
      → resume_throttled op policy is_startup found config w ≡ (ok tt, u)
      → AllReleased quiet u found
  unfolding resume_throttled tally
  resume_throttled-AllReleased policy config is_startup (ds, ss) w u due h =
      let (start, w₁) = op.client.now w in
      let items = all_workloads ds ss in
      let (v, ran, left) = put_cache-ok op w₁ _ h in
      let (soon, soon_sets) = AllDue-same quiet w w₁ (ds, ss) (calm.steady.now_goes w) due in
      let held : Held policy config is_startup start items items v.1 =
        resume_builds_all (services policy config is_startup start)
          (tally policy config is_startup start items) config items op.resume_fuel
          (op.metrics_cache w₁, w₁) (λ n. (joined (Due w₁) ds ss soon soon_sets, tt)) ran in
      let restored = (held (each_of Due items items (λ x a. a))).1 in
      AllReleased-same quiet v.1 u (ds, ss)
        (subst (λ t. SameStored quiet v.1 t) left (calm.cache_keeps v.0 v.1))
        (apart (Restored v.1) ds ss restored)

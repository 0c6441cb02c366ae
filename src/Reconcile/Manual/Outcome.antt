-- ===== src/Reconcile/Manual/Outcome.antt =====
-- What a manual operation that ends well has done to the workloads, in a quiet cluster.
use app_lifecycle_kubernetes.Base.{
  false, List, [], ◌∷◌, ◌++◌, Action, Result, ok, err, Error, ◌≡◌, refl, sym, ap, subst, ◌∙◌, Every,
  and_then, and_then-ok, Option, some, pure,
}
use app_lifecycle_kubernetes.Types.{Policy, Phase, LifecycleAction}
use app_lifecycle_kubernetes.Kube.{Workload}
use app_lifecycle_kubernetes.Client.{Client, describe}
use app_lifecycle_kubernetes.Base.Text.{◌+++◌}
use app_lifecycle_kubernetes.Progress.{update_status}
use app_lifecycle_kubernetes.Workloads.{freeze_deployment, freeze_stateful_set}
use app_lifecycle_kubernetes.Workloads.Quiet.{StoredAs, IsFrozen, freeze_once-StoredAs}
use app_lifecycle_kubernetes.Reconcile.Parts.{Operator, Requeue, finished}
use app_lifecycle_kubernetes.Reconcile.Acts.{report_phase, freeze_now}
use app_lifecycle_kubernetes.Reconcile.Manual.{act, act_on_found, list_then_act, run_operation}
use app_lifecycle_kubernetes.Reconcile.Manual.Loops.{
  Done, or_fail-ok, each_or_fail-Done, each_or_fail-stops, Achieves, Done-achieves, Done-invariant,
}
use app_lifecycle_kubernetes.Reconcile.Manual.Cluster.{
  QuietCluster, update_status-keeps, freeze_stateful_set-keeps,
}

abbrev Anything : {W : Type 0} → W → Workload → Type 0
Anything w x = Unit {0}

all_of_them : {W : Type 0} (w : W) (ws : List Workload) → Every (Anything w) ws
all_of_them w [] = tt
all_of_them w (x ∷ ws) = (tt, all_of_them w ws)

module _ {W : Type 0} {c : Client W} (quiet : QuietCluster c) where
  -- All workloads of a list are stored without replicas.
  abbrev pub AllFrozen : W → List Workload → List Workload → Type 0
  AllFrozen w ds ss =
      Every (StoredAs quiet.deployments IsFrozen w) ds
      × Every (StoredAs quiet.stateful_sets IsFrozen w) ss

  freeze_deployment-Achieves :
      (policy : Option Policy)
      → Achieves (λ d. freeze_deployment c d policy) Anything (StoredAs quiet.deployments IsFrozen)
  unfolding freeze_deployment
  freeze_deployment-Achieves policy = record {
    achieves = λ x w u a h. (freeze_once-StoredAs c quiet.laws quiet.deployments _ x x w u h).0;
    keeps = λ x y w u a h. (freeze_once-StoredAs c quiet.laws quiet.deployments _ x y w u h).1;
    keeps_asked = λ x y w u a h t. tt;
  }

  freeze_stateful_set-Achieves :
      (policy : Option Policy)
      → Achieves
          (λ s. freeze_stateful_set c s policy)
          Anything
          (StoredAs quiet.stateful_sets IsFrozen)
  unfolding freeze_stateful_set
  freeze_stateful_set-Achieves policy = record {
    achieves = λ x w u a h. (freeze_once-StoredAs c quiet.laws quiet.stateful_sets _ x x w u h).0;
    keeps = λ x y w u a h. (freeze_once-StoredAs c quiet.laws quiet.stateful_sets _ x y w u h).1;
    keeps_asked = λ x y w u a h t. tt;
  }

  -- What is stored of the Deployments is not seen by the loop over the StatefulSets.
  pub seen_after :
      {act : Workload → Action W (Unit {0})}
      → ((x : Workload) (w : W) → quiet.deployments.at (act x w).1 ≡ quiet.deployments.at w)
      → {ws : List Workload} {w u : W} → Done act ws w u
      → quiet.deployments.at u ≡ quiet.deployments.at w
  seen_after keeps {w = w} done =
      Done-invariant (λ v. quiet.deployments.at v ≡ quiet.deployments.at w)
        (λ x v z e i. sym (ap (λ t. quiet.deployments.at t.1) e) ∙ keeps x v ∙ i) done refl

  -- What holds of the stored objects holds in a world where they are seen the same.
  pub moved :
      (Q : Workload → Type 0) (ds : List Workload) {v u : W}
      → quiet.deployments.at u ≡ quiet.deployments.at v
      → Every (StoredAs quiet.deployments Q v) ds
      → Every (StoredAs quiet.deployments Q u) ds
  moved Q ds same h =
      subst (λ see. Every (λ x. (z : Workload) × (see x.namespace x.name ≡ some z) × Q z) ds)
        (sym same) h

  pub moved_sets :
      (Q : Workload → Type 0) (ss : List Workload) {v u : W}
      → quiet.stateful_sets.at u ≡ quiet.stateful_sets.at v
      → Every (StoredAs quiet.stateful_sets Q v) ss
      → Every (StoredAs quiet.stateful_sets Q u) ss
  moved_sets Q ss same h =
      subst (λ see. Every (λ x. (z : Workload) × (see x.namespace x.name ≡ some z) × Q z) ss)
        (sym same) h

pub then-world :
    {W A B : Type 0} (r : Result A × W) (b : B) {q : B} {u : W}
    → and_then r (λ _. pure b) ≡ (ok q, u)
    → r.1 ≡ u
then-world (ok a, v) b h = ap (λ t. t.1) h
then-world (err e, v) b h = cc h

module _ {W : Type 0} {c : Client W} (quiet : QuietCluster c) (policy : Policy) where
  freeze_now-AllFrozen :
      (ds ss : List Workload) (w u : W) (r : Requeue)
      → freeze_now c policy (ds, ss) w ≡ (ok r, u)
      → AllFrozen quiet u ds ss
  unfolding freeze_now
  freeze_now-AllFrozen ds ss w u r h =
      let (v, first, h₁) =
        each_or_fail-Done c policy _ (λ d. freeze_deployment c d (some policy)) ds _ w u h in
      let (z, second, h₂) =
        each_or_fail-Done c policy _ (λ s. freeze_stateful_set c s (some policy)) ss _ v u h₁ in
      let last = then-world (update_status c policy Phase.frozen _ false z) finished h₂ in
      let seen : quiet.deployments.at u ≡ quiet.deployments.at v =
        sym (ap quiet.deployments.at last)
        ∙ update_status-keeps quiet.deployments_untouched policy Phase.frozen _ false z
        ∙ seen_after quiet (λ x t. freeze_stateful_set-keeps quiet x (some policy) t) second in
      let seen_sets : quiet.stateful_sets.at u ≡ quiet.stateful_sets.at z =
        sym (ap quiet.stateful_sets.at last)
        ∙ update_status-keeps quiet.stateful_sets_untouched policy Phase.frozen _ false z in
      (
        moved quiet IsFrozen ds seen (
            Done-achieves (freeze_deployment-Achieves quiet (some policy)) first
              (all_of_them w ds)),
        moved_sets quiet IsFrozen ss seen_sets (
            Done-achieves (freeze_stateful_set-Achieves quiet (some policy)) second
              (all_of_them v ss)),
      )

-- What a manual operation lists, and when.
pub record Listed {W : Type 0} (c : Client W) (policy : Policy) (ds ss : List Workload)
    : Type 0 where
  pub before : W
  pub between : W
  pub after : W
  pub deployments_listed :
      c.deployments.list policy.spec.target_namespace policy.spec.selector before ≡ (ok ds, between)
  pub stateful_sets_listed :
      c.stateful_sets.list policy.spec.target_namespace policy.spec.selector between
      ≡ (ok ss, after)

-- A manual operation that ends well lists the workloads and then acts on them.
pub run_operation-Listed :
    {W : Type 0} (op : Operator W) (policy : Policy) (w u : W) (r : Requeue)
    → run_operation op policy w ≡ (ok r, u)
    → (ds : List Workload) × (ss : List Workload) × (listed : Listed op.client policy ds ss)
      × (act_on_found op policy ds ss listed.after ≡ (ok r, u))
unfolding run_operation list_then_act
run_operation-Listed op policy w u r h =
    let (_, v, _, h₁) = and_then-ok (update_status op.client policy _ _ false w) _ h in
    let (ds, v₁, first, h₂) = or_fail-ok op.client policy _ _ _ h₁ in
    let (ss, v₂, second, h₃) = or_fail-ok op.client policy _ _ _ h₂ in
    (
      ds,
      ss,
      record {
        before = v;
        between = v₁;
        after = v₂;
        deployments_listed = first;
        stateful_sets_listed = second;
      },
      h₃,
    )

module _ {W : Type 0} (op : Operator W) (quiet : QuietCluster op.client) (policy : Policy)
    (asked : policy.spec.action ≡ LifecycleAction.freeze) where
  act_on_found-AllFrozen :
      (ds ss : List Workload) (w u : W) (r : Requeue)
      → act_on_found op policy ds ss w ≡ (ok r, u)
      → AllFrozen quiet u ds ss
  unfolding act_on_found act
  act_on_found-AllFrozen [] [] w u r h = (tt, tt)
  act_on_found-AllFrozen [] (s ∷ ss) w u r h =
      freeze_now-AllFrozen quiet policy [] (s ∷ ss) w u r
        (subst (λ a. act op policy [] (s ∷ ss) a w ≡ (ok r, u)) asked h)
  act_on_found-AllFrozen (d ∷ ds) ss w u r h =
      freeze_now-AllFrozen quiet policy (d ∷ ds) ss w u r
        (subst (λ a. act op policy (d ∷ ds) ss a w ≡ (ok r, u)) asked h)

-- In a quiet cluster, a manual freeze that returns without an error has left every Deployment and every
-- StatefulSet that it listed stored with zero replicas.
pub run_operation-AllFrozen :
    {W : Type 0} (op : Operator W) (quiet : QuietCluster op.client) (policy : Policy) (w u : W)
    (r : Requeue)
    → policy.spec.action ≡ LifecycleAction.freeze
    → run_operation op policy w ≡ (ok r, u)
    → (ds : List Workload) × (ss : List Workload) × Listed op.client policy ds ss
      × AllFrozen quiet u ds ss
run_operation-AllFrozen op quiet policy w u r asked h =
    let (ds, ss, listed, h₁) = run_operation-Listed op policy w u r h in
    (ds, ss, listed, act_on_found-AllFrozen op quiet policy asked ds ss listed.after u r h₁)

-- A manual freeze stops at the first Deployment that cannot be frozen: the Deployments before it were
-- frozen, the status says which one failed, the error is returned, and neither a later Deployment nor a
-- StatefulSet is touched.
pub freeze_now-stops :
    {W : Type 0} (c : Client W) (policy : Policy) (before rest ss : List Workload) (d : Workload)
    (w v u : W) (e : Error)
    → Done (λ x. freeze_deployment c x (some policy)) before w v
    → freeze_deployment c d (some policy) v ≡ (err e, u)
    → freeze_now c policy (before ++ d ∷ rest, ss) w ≡ (
      err e,
      report_phase c policy Phase.failed
          (("Failed to freeze deployment " +++ d.name) +++ (": " +++ describe c e))
          u,
    )
unfolding freeze_now
freeze_now-stops c policy before rest ss d w v u e done failed =
    each_or_fail-stops c policy "Failed to freeze deployment "
      (λ x. freeze_deployment c x (some policy)) _ d rest done failed

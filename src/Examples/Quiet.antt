-- ===== src/Examples/Quiet.antt =====
-- A quiet cluster with one Deployment and one StatefulSet, which are read and patched by their names.
use app_lifecycle_kubernetes.Base.{
  String, true, false, Option, none, some, [], ◌∷◌, Result, ok, err, not_found, ◌≡◌, refl, ap,
  subst, Bool, List, Every, str_eq_refl, ◌∙◌, arith, str_eq_iff, Bool-cases, inl, inr,
  if◌then◌else◌,
}
use app_lifecycle_kubernetes.Types.{LabelSelector}
use app_lifecycle_kubernetes.Kube.{Workload}
use app_lifecycle_kubernetes.Client.{Client, Objects, RetryLaws}
use app_lifecycle_kubernetes.Workloads.Quiet.{is_named, Stored}
use app_lifecycle_kubernetes.Reconcile.Manual.Cluster.{QuietCluster, Untouched}
use app_lifecycle_kubernetes.Reconcile.Manual.Calm.{SameStored}
use app_lifecycle_kubernetes.Examples.Fixtures.{World, client}

abbrev pub named_store : (World → Workload) → (Workload → World → World) → Objects World Workload
named_store get put = record {
  get = λ namespace name w.
      if is_named namespace name (get w) then (ok (get w), w) else (err not_found, w);
  patch = λ before after w.
      if is_named before.namespace before.name (get w)
      then (ok tt, put after w)
      else (err not_found, w);
  list = λ namespace selector w. (ok (get w ∷ []), w);
}

abbrev pub quiet_client : Client World
quiet_client = record client {
  deployments = named_store (λ w. w.deployment) (λ d w. record w { deployment = d });
  stateful_sets = named_store (λ w. w.stateful_set) (λ s w. record w { stateful_set = s });
}

abbrev found_in : String → String → Workload → Option Workload
found_in namespace name x = if is_named namespace name x then some x else none

abbrev answers : String → String → Workload → World → Result Workload × World
answers namespace name x w = if is_named namespace name x then (ok x, w) else (err not_found, w)

named :
    (ns name : String) (x : Workload)
    → is_named ns name x ≡ true
    → (x.namespace ≡ ns) × (x.name ≡ name)
named ns name x h = ground (arith, str_eq_iff x.namespace ns, str_eq_iff x.name name)

same_ok :
    {A : Type 0} {a b : A} {w v : World} → ◌≡◌ {A = Result A × World} (ok a, w) (ok b, v) → a ≡ b
same_ok e = cc

same_world :
    {A : Type 0} {a b : A} {w v : World} → ◌≡◌ {A = Result A × World} (ok a, w) (ok b, v) → w ≡ v
same_world e = cc

not_ok :
    {A : Type 0} {b : A} {w v : World} → ◌≡◌ {A = Result A × World} (err not_found, w) (ok b, v) → ⊥
not_ok e = cc

found_lem :
    (ns name : String) (z x : Workload) (w v : World)
    → answers ns name z w ≡ (ok x, v)
    → (found_in ns name z ≡ some x) × (x.namespace ≡ ns) × (x.name ≡ name)
found_lem ns name z x w v e = elim (Bool-cases (is_named ns name z)) [
  | inl y ↦
      let here : z ≡ x = same_ok (rw y at e) in
      subst (λ t. (found_in ns name z ≡ some t) × (t.namespace ≡ ns) × (t.name ≡ name)) here
        (rw y refl, (named ns name z y).0, (named ns name z y).1)
  | inr n ↦ elim (not_ok (rw n at e)) [ ]
]

away :
    (ns name : String) (z before : Workload)
    → is_named before.namespace before.name z ≡ true
    → is_named ns name before ≡ false
    → is_named ns name z ≡ false
away ns name z before h n =
    let (a, b) = named before.namespace before.name z h in ground (arith, a, b, n)

renamed :
    (ns name : String) (before after : Workload)
    → after.namespace ≡ before.namespace
    → after.name ≡ before.name
    → is_named ns name after ≡ is_named ns name before
renamed ns name before after a b = rw (a, b) refl

stored_lem :
    (ns name : String) (before after z : Workload) (b : Bool)
    → is_named before.namespace before.name z ≡ true
    → is_named ns name after ≡ is_named ns name before
    → found_in ns name after ≡ (if is_named ns name before then some after else found_in ns name z)
stored_lem ns name before after z b h same = elim (Bool-cases (is_named ns name before)) [
  | inl y ↦ rw (same, y) refl
  | inr n ↦ rw (same, n, away ns name z before h n) refl
]

module _ (get : World → Workload) (put : Workload → World → World)
    (put_get : (x : Workload) (w : World) → get (put x w) ≡ x) where
  patch_lem :
      (before after : Workload) (w u : World) (ns name : String)
      → is_named ns name after ≡ is_named ns name before
      → (named_store get put).patch before after w ≡ (ok tt, u)
      → found_in ns name (get u)
        ≡ (if is_named ns name before then some after else found_in ns name (get w))
  patch_lem before after w u ns name same e =
      elim (Bool-cases (is_named before.namespace before.name (get w))) [
        | inl y ↦
            let there : put after w ≡ u = same_world (rw y at e) in
            subst
              (λ t.
                found_in ns name (get t)
                ≡ (if is_named ns name before then some after else found_in ns name (get w)))
              there (rw put_get (stored_lem ns name before after (get w) true y same))
        | inr n ↦ elim (not_ok (rw n at e)) [ ]
      ]

  named_store-Stored : Stored (named_store get put)
  named_store-Stored = record {
    at = λ w ns name. found_in ns name (get w);
    get_keeps = λ ns name w. elim (Bool-cases (is_named ns name (get w))) [
      | inl y ↦ rw y refl
      | inr n ↦ rw n refl
    ];
    get_found = λ ns name w v x e. found_lem ns name (get w) x w v e;
    get_settled = λ ns name w. elim (Bool-cases (is_named ns name (get w))) [
      | inl y ↦ rw y (λ q. cc q)
      | inr n ↦ rw n (λ q. cc q)
    ];
    patch_stored = λ before after w u base same_ns same_name e ns name.
        patch_lem before after w u ns name (renamed ns name before after same_ns same_name) e;
    patch_settled = λ before after w.
        elim (Bool-cases (is_named before.namespace before.name (get w))) [
          | inl y ↦ rw y (λ q. cc q)
          | inr n ↦ rw n (λ q. cc q)
        ];
  }

abbrev see_deployments : World → String → String → Option Workload
see_deployments w ns name = found_in ns name w.deployment

see_deployments-Untouched : Untouched quiet_client see_deployments
see_deployments-Untouched = record {
  retry_keeps = λ f h w. h w;
  get_policy_keeps = λ ns name w. refl;
  patch_status_keeps = λ p q w. refl;
  update_status_keeps = λ p w. refl;
  now_keeps = λ w. refl;
}

abbrev see_stateful_sets : World → String → String → Option Workload
see_stateful_sets w ns name = found_in ns name w.stateful_set

see_stateful_sets-Untouched : Untouched quiet_client see_stateful_sets
see_stateful_sets-Untouched = record {
  retry_keeps = λ f h w. h w;
  get_policy_keeps = λ ns name w. refl;
  patch_status_keeps = λ p q w. refl;
  update_status_keeps = λ p w. refl;
  now_keeps = λ w. refl;
}

pub quiet_laws : RetryLaws quiet_client
quiet_laws = record { retry_settled = λ f w settled. refl }

pub quiet : QuietCluster quiet_client
unfolding named_store-Stored
quiet = record {
  laws = quiet_laws;
  deployments =
      named_store-Stored (λ w. w.deployment) (λ d w. record w { deployment = d }) (λ x w. refl);
  stateful_sets =
      named_store-Stored (λ w. w.stateful_set) (λ s w. record w { stateful_set = s }) (λ x w. refl);
  deployments_untouched = see_deployments-Untouched;
  stateful_sets_untouched = see_stateful_sets-Untouched;
  get_keeps = λ ns name w. elim (Bool-cases (is_named ns name w.stateful_set)) [
    | inl y ↦ rw y refl
    | inr n ↦ rw n refl
  ];
  patch_keeps = λ before after w.
      elim (Bool-cases (is_named before.namespace before.name w.stateful_set)) [
        | inl y ↦ rw y refl
        | inr n ↦ rw n refl
      ];
}

-- What is seen of the cluster is its Deployment and its StatefulSet.
pub see_same :
    (w u : World)
    → u.deployment ≡ w.deployment
    → u.stateful_set ≡ w.stateful_set
    → SameStored quiet w u
unfolding quiet named_store-Stored
see_same w u same same_sets =
    (ap (λ d ns name. found_in ns name d) same, ap (λ s ns name. found_in ns name s) same_sets)

pub get_keeps_sets :
    (ns name : String) (w : World)
    → quiet.stateful_sets.at (quiet_client.deployments.get ns name w).1 ≡ quiet.stateful_sets.at w
unfolding quiet named_store-Stored
get_keeps_sets ns name w = elim (Bool-cases (is_named ns name w.deployment)) [
  | inl y ↦ rw y refl
  | inr n ↦ rw n refl
]

pub patch_keeps_sets :
    (before after : Workload) (w : World)
    → quiet.stateful_sets.at (quiet_client.deployments.patch before after w).1
      ≡ quiet.stateful_sets.at w
unfolding quiet named_store-Stored
patch_keeps_sets before after w =
    elim (Bool-cases (is_named before.namespace before.name w.deployment)) [
      | inl y ↦ rw y refl
      | inr n ↦ rw n refl
    ]

-- A list gives what is stored.
list_lem :
    (get : World → Workload) (see : World → String → String → Option Workload) (w v : World)
    (xs : List Workload)
    → ((z : World) → see z ≡ (λ ns name. found_in ns name (get z)))
    → ◌≡◌ {A = Result (List Workload) × World} (ok (get w ∷ []), w) (ok xs, v)
    → Every (λ x. see v x.namespace x.name ≡ some x) xs
list_lem get see w v xs sees e =
    let here : get w ∷ [] ≡ xs = cc in
    let there : w ≡ v = cc in
    subst (λ ys. Every (λ x. see v x.namespace x.name ≡ some x) ys) here
      (
        subst (λ z. see z (get w).namespace (get w).name ≡ some (get w)) there
            ((λ i. sees w i (get w).namespace (get w).name)
              ∙ (rw (str_eq_refl (get w).namespace, str_eq_refl (get w).name) refl)),
        tt,
      )

pub list_fresh :
    (ns : String) (selector : Option LabelSelector) (w v : World) (xs : List Workload)
    → quiet_client.deployments.list ns selector w ≡ (ok xs, v)
    → Every (λ x. quiet.deployments.at v x.namespace x.name ≡ some x) xs
unfolding quiet named_store-Stored
list_fresh ns selector w v xs e = list_lem (λ z. z.deployment) _ w v xs (λ z. refl) e

pub list_sets_fresh :
    (ns : String) (selector : Option LabelSelector) (w v : World) (xs : List Workload)
    → quiet_client.stateful_sets.list ns selector w ≡ (ok xs, v)
    → Every (λ x. quiet.stateful_sets.at v x.namespace x.name ≡ some x) xs
unfolding quiet named_store-Stored
list_sets_fresh ns selector w v xs e = list_lem (λ z. z.stateful_set) _ w v xs (λ z. refl) e

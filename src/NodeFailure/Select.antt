-- ===== src/NodeFailure/Select.antt =====
-- Which workloads are taken to be on the failed node alone.
use app_lifecycle_kubernetes.Base.{
  ◌<◌, String, Bool, true, false, ◌||◌, Option, none, some, List, [], ◌∷◌, ◌++◌, ◌≡◌, refl, sym,
  ◌∙◌, ap, arith, ◌⊎◌, str_eq, str_eq_iff, if◌then◌else◌, Bool-cases, Option-cases, inl, inr, In,
  here, there, Result, ok, err,
}
use app_lifecycle_kubernetes.Kube.{Workload, Pod}
use app_lifecycle_kubernetes.Client.{Client}
use app_lifecycle_kubernetes.NodeFailure.{
  Owner, OwnerKind, deployment, stateful_set, Entry, tally, tally_result, tally_pods, is_allowed,
  is_done, is_fully_local, resolve_owner, find_uid, select_local, add_local, opt_cons,
}
use app_lifecycle_kubernetes.NodeFailure.Tally.{
  Observed, tally_all, total_of, failed_of, pods_of, failed_pods_of, tally_all_lem,
}

abbrev has_entry : String → List Entry → Bool
has_entry uid [] = false
has_entry uid (e ∷ rest) = str_eq e.uid uid || has_entry uid rest

-- No two entries have one UID.
abbrev Distinct : List Entry → Type 0
Distinct [] = Unit {0}
Distinct (e ∷ rest) = (has_entry e.uid rest ≡ false) × Distinct rest

has_entry-tally :
    (uid : String) (o : Owner) (f : Bool) (entries : List Entry)
    → has_entry uid (tally o f entries) ≡ (str_eq o.uid uid || has_entry uid entries)
unfolding tally
has_entry-tally uid o f [] = ground arith
has_entry-tally uid o f (e ∷ rest) = ground (
  arith,
  str_eq_iff e.uid uid,
  str_eq_iff o.uid uid,
  str_eq_iff e.uid o.uid,
  has_entry-tally uid o f rest,
)

tally-Distinct :
    (o : Owner) (f : Bool) (entries : List Entry) → Distinct entries → Distinct (tally o f entries)
unfolding tally
tally-Distinct o f [] d = (refl, tt)
tally-Distinct o f (e ∷ rest) d = elim (Bool-cases (str_eq e.uid o.uid)) [
  | inl same ↦ simp same d
  | inr other ↦ simp other (
    has_entry-tally e.uid o f rest
        ∙ ground (arith, str_eq_iff o.uid e.uid, str_eq_iff e.uid o.uid, d.0),
    tally-Distinct o f rest d.1,
  )
]

tally_all-Distinct :
    (seen : List Observed) (entries : List Entry)
    → Distinct entries
    → Distinct (tally_all seen entries)
tally_all-Distinct [] entries d = d
tally_all-Distinct (o ∷ rest) entries d =
    tally_all-Distinct rest _ (tally-Distinct o.owner o.on_failed entries d)

has_entry-In : (e : Entry) (entries : List Entry) → In e entries → has_entry e.uid entries ≡ true
has_entry-In e [] at = elim at [ ]
has_entry-In e (x ∷ rest) (here p) = rw p (ground (arith, str_eq_iff x.uid x.uid))
has_entry-In e (x ∷ rest) (there at) = rw (has_entry-In e rest at) (ground arith)

of_entry :
    (e : Entry) (entries : List Entry)
    → Distinct entries
    → In e entries
    → (total_of e.uid entries ≡ e.total_pods) × (failed_of e.uid entries ≡ e.failed_node_pods)
of_entry e [] d at = elim at [ ]
of_entry e (x ∷ rest) d (here p) = rw p (ground (arith, str_eq_iff x.uid x.uid))
of_entry e (x ∷ rest) d (there at) =
    ground (arith, str_eq_iff x.uid e.uid, has_entry-In e rest at, of_entry e rest d.1 at)

find_uid-uid :
    (uid : String) (ws : List Workload) {x : Workload} → find_uid uid ws ≡ some x → x.uid ≡ uid
unfolding find_uid
find_uid-uid uid [] h = cc
find_uid-uid uid (w ∷ rest) h = elim (Option-cases (find_uid uid rest)) [
  | inl e ↦ ground (arith, rw e at h, str_eq_iff w.uid uid)
  | inr (y, e) ↦ find_uid-uid uid rest (e ∙ (rw e at h))
]

-- The entry behind a selected object.
abbrev Behind : Workload → List Entry → Type 0
Behind x entries = (e : Entry) × In e entries × (is_fully_local e ≡ true) × (x.uid ≡ e.uid)

Behind-later : (x : Workload) {e : Entry} {rest : List Entry} → Behind x rest → Behind x (e ∷ rest)
Behind-later x (b, at, local, same) = (b, there at, local, same)

opt_cons-In :
    (x : Workload) (o : Option Workload) (ws : List Workload)
    → In x (opt_cons o ws)
    → (o ≡ some x) ⊎ In x ws
opt_cons-In x none ws at = inr at
opt_cons-In x (some y) ws (here p) = inl (ap some (sym p))
opt_cons-In x (some y) ws (there at) = inr at

add_local-In :
    (x : Workload) (k : OwnerKind) (d s : Option Workload) (r : List Workload × List Workload)
    → (In x (add_local k d s r).0 → (d ≡ some x) ⊎ In x r.0)
      × (In x (add_local k d s r).1 → (s ≡ some x) ⊎ In x r.1)
add_local-In x deployment d s (ds, ss) = (opt_cons-In x d ds, inr)
add_local-In x stateful_set d s (ds, ss) = (inr, opt_cons-In x s ss)

select_local-Behind :
    (ds ss : List Workload) (entries : List Entry) (x : Workload)
    → (In x (select_local ds ss entries).0 → Behind x entries)
      × (In x (select_local ds ss entries).1 → Behind x entries)
unfolding select_local
select_local-Behind ds ss [] x = (λ at. elim at [ ], λ at. elim at [ ])
select_local-Behind ds ss (e ∷ rest) x =
    let (in_ds, in_ss) = select_local-Behind ds ss rest x in
    let added =
      add_local-In x e.kind (find_uid e.uid ds) (find_uid e.uid ss) (select_local ds ss rest) in
    elim (Bool-cases (is_fully_local e)) [
      | inl local ↦ rw local (
        λ at. elim (added.0 at) [
          | inl found ↦ (e, here refl, local, find_uid-uid e.uid ds found)
          | inr at' ↦ Behind-later x (in_ds at')
        ],
        λ at. elim (added.1 at) [
          | inl found ↦ (e, here refl, local, find_uid-uid e.uid ss found)
          | inr at' ↦ Behind-later x (in_ss at')
        ],
      )
      | inr spread ↦ rw spread (λ at. Behind-later x (in_ds at), λ at. Behind-later x (in_ss at))
    ]

-- The pods that the loop counts, with their owners as they are resolved on the way.
unfoldable pub observe_result :
    List Workload → List Workload → Result (Option Owner) → Bool → List Observed
observe_result ds ss (err e) f = []
observe_result ds ss (ok none) f = []
observe_result ds ss (ok (some o)) f =
    if is_allowed ds ss o then record { owner = o; on_failed = f } ∷ [] else []

unfoldable pub observe :
    {W : Type 0} → Client W → List Workload → List Workload → String → List Pod → W → List Observed
unfolding observe_result
observe c ds ss failed_node [] w = []
observe c ds ss failed_node (pod ∷ rest) w =
    let (owner, w₁) = resolve_owner c pod.namespace pod.owner_references w in
    let skipped = is_done pod.phase || pod.is_deleting in
    let later = observe c ds ss failed_node rest (if skipped then w else w₁) in
    (if skipped then [] else observe_result ds ss owner (str_eq pod.node_name failed_node)) ++ later

tally_result-observe :
    (ds ss : List Workload) (r : Result (Option Owner)) (f : Bool) (more : List Observed)
    (entries : List Entry)
    → tally_all (observe_result ds ss r f ++ more) entries
      ≡ tally_all more (tally_result ds ss r f entries)
unfolding observe_result tally_result
tally_result-observe ds ss (err e) f more entries = refl
tally_result-observe ds ss (ok none) f more entries = refl
tally_result-observe ds ss (ok (some o)) f more entries = elim (Bool-cases (is_allowed ds ss o)) [
  | inl y ↦ rw y refl
  | inr n ↦ rw n refl
]

tally_pods-observe :
    {W : Type 0} (c : Client W) (ds ss : List Workload) (failed_node : String) (pods : List Pod)
    (entries : List Entry) (w : W)
    → (tally_pods c ds ss failed_node pods entries w).0
      ≡ tally_all (observe c ds ss failed_node pods w) entries
unfolding tally_pods observe
tally_pods-observe c ds ss failed_node [] entries w = refl
tally_pods-observe c ds ss failed_node (pod ∷ rest) entries w =
    let (owner, w₁) = resolve_owner c pod.namespace pod.owner_references w in
    elim (Bool-cases (is_done pod.phase || pod.is_deleting)) [
      | inl y ↦ simp y (tally_pods-observe c ds ss failed_node rest entries w)
      | inr n ↦ simp n (
          tally_pods-observe c ds ss failed_node rest _ w₁
          ∙ sym (tally_result-observe ds ss owner (str_eq pod.node_name failed_node) _ entries))
    ]

Behind-counts :
    (x : Workload) (seen : List Observed)
    → Behind x (tally_all seen [])
    → (0 < pods_of x.uid seen) × (pods_of x.uid seen ≡ failed_pods_of x.uid seen)
Behind-counts x seen (e, at, local, same) =
    let counts = of_entry e (tally_all seen []) (tally_all-Distinct seen [] tt) at in
    let tallied = tally_all_lem e.uid seen in rw same (ground (arith, counts, tallied))

-- A Deployment or StatefulSet is taken for scale-down only if at least one running pod of it was
-- counted and every counted pod of it is on the failed node.
pub select_local-tally_pods :
    {W : Type 0} (c : Client W) (ds ss : List Workload) (failed_node : String) (pods : List Pod)
    (w : W) (x : Workload)
    → let chosen = select_local ds ss (tally_pods c ds ss failed_node pods [] w).0 in
      let seen = observe c ds ss failed_node pods w in
      In x chosen.0 ⊎ In x chosen.1
      → (0 < pods_of x.uid seen) × (pods_of x.uid seen ≡ failed_pods_of x.uid seen)
select_local-tally_pods c ds ss failed_node pods w x at =
    let (in_ds, in_ss) = select_local-Behind ds ss (tally_pods c ds ss failed_node pods [] w).0 x in
    let tallied = tally_pods-observe c ds ss failed_node pods [] w in
    elim at [
      | inl a ↦ Behind-counts x _ (rw tallied at (in_ds a))
      | inr a ↦ Behind-counts x _ (rw tallied at (in_ss a))
    ]

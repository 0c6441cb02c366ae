-- ===== src/NodeFailure/Tally.antt =====
-- The counters say how many pods of each workload run, and how many of them on the failed node.
use app_lifecycle_kubernetes.Base.{
  ℕ, suc, ◌+◌, String, Bool, ◌&&◌, List, [], ◌∷◌, ◌≡◌, arith, str_eq, str_eq_iff, if◌then◌else◌,
  ◌∙◌,
}
use app_lifecycle_kubernetes.NodeFailure.{Owner, Entry, tally}

-- One pod that counts: its owner, and whether it is on the failed node.
pub record Observed : Type 0 where
  pub owner : Owner
  pub on_failed : Bool

abbrev pub tally_all : List Observed → List Entry → List Entry
tally_all [] entries = entries
tally_all (o ∷ rest) entries = tally_all rest (tally o.owner o.on_failed entries)

-- The counters that the entries hold for a UID, zero where it has no entry.
abbrev pub total_of : String → List Entry → ℕ
total_of uid [] = 0
total_of uid (e ∷ rest) = if str_eq e.uid uid then e.total_pods else total_of uid rest

abbrev pub failed_of : String → List Entry → ℕ
failed_of uid [] = 0
failed_of uid (e ∷ rest) = if str_eq e.uid uid then e.failed_node_pods else failed_of uid rest

-- The pods of a UID, and those of them on the failed node, counted directly.
abbrev pub pods_of : String → List Observed → ℕ
pods_of uid [] = 0
pods_of uid (o ∷ rest) =
    let more = pods_of uid rest in if str_eq o.owner.uid uid then suc more else more

abbrev pub failed_pods_of : String → List Observed → ℕ
failed_pods_of uid [] = 0
failed_pods_of uid (o ∷ rest) =
    let more = failed_pods_of uid rest in
    if str_eq o.owner.uid uid && o.on_failed then suc more else more

total_of-tally :
    (uid : String) (o : Owner) (on_failed : Bool) (entries : List Entry)
    → total_of uid (tally o on_failed entries)
      ≡ (if str_eq o.uid uid then suc (total_of uid entries) else total_of uid entries)
unfolding tally
total_of-tally uid o f [] = ground arith
total_of-tally uid o f (e ∷ rest) = ground (
  arith,
  str_eq_iff e.uid uid,
  str_eq_iff o.uid uid,
  str_eq_iff e.uid o.uid,
  total_of-tally uid o f rest,
)

failed_of-tally :
    (uid : String) (o : Owner) (on_failed : Bool) (entries : List Entry)
    → failed_of uid (tally o on_failed entries) ≡ (
        if str_eq o.uid uid && on_failed
        then suc (failed_of uid entries)
        else failed_of uid entries)
unfolding tally
failed_of-tally uid o f [] = ground arith
failed_of-tally uid o f (e ∷ rest) = ground (
  arith,
  str_eq_iff e.uid uid,
  str_eq_iff o.uid uid,
  str_eq_iff e.uid o.uid,
  failed_of-tally uid o f rest,
)

total_of-tally_all :
    (uid : String) (seen : List Observed) (entries : List Entry)
    → total_of uid (tally_all seen entries) ≡ pods_of uid seen + total_of uid entries
total_of-tally_all uid [] entries = omega arith
total_of-tally_all uid (o ∷ rest) entries =
    total_of-tally_all uid rest (tally o.owner o.on_failed entries)
    ∙ ground (arith, total_of-tally uid o.owner o.on_failed entries)

failed_of-tally_all :
    (uid : String) (seen : List Observed) (entries : List Entry)
    → failed_of uid (tally_all seen entries) ≡ failed_pods_of uid seen + failed_of uid entries
failed_of-tally_all uid [] entries = omega arith
failed_of-tally_all uid (o ∷ rest) entries =
    failed_of-tally_all uid rest (tally o.owner o.on_failed entries)
    ∙ ground (arith, failed_of-tally uid o.owner o.on_failed entries)

-- Counting the pods one by one gives for every UID the number of its pods and the number of those on
-- the failed node, in whatever order the pods of different workloads come.
pub tally_all_lem :
    (uid : String) (seen : List Observed)
    → (total_of uid (tally_all seen []) ≡ pods_of uid seen)
      × (failed_of uid (tally_all seen []) ≡ failed_pods_of uid seen)
tally_all_lem uid seen =
    (total_of-tally_all uid seen [] ∙ omega arith, failed_of-tally_all uid seen [] ∙ omega arith)

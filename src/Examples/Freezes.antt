-- ===== src/Examples/Freezes.antt =====
-- A startup with freezes of two priorities in a small cluster.
use app_lifecycle_kubernetes.Base.{
  ℕ, ◌+◌, ◌≤◌, Bool, false, some, List, [], ◌∷◌, ok, err, canceled, ◌≡◌, refl, arith, In, here,
  there, ltb, if◌then◌else◌, Every, Bool-cases, inl, inr,
}
use app_lifecycle_kubernetes.Types.{Policy, StartupPolicy}
use app_lifecycle_kubernetes.Client.{Client}
use app_lifecycle_kubernetes.Nodes.Wait.{timed_out}
use app_lifecycle_kubernetes.Startup.{Sort}
use app_lifecycle_kubernetes.Nodes.Wait.{NodeSelect}
use app_lifecycle_kubernetes.Startup.Programs.{returned}
use app_lifecycle_kubernetes.Startup.Freezing.{process_policy_with_delay_and_freeze}
use app_lifecycle_kubernetes.Startup.Freezing.Returns.{WallClock}
use app_lifecycle_kubernetes.Startup.Groups.{
  freeze_policies, freeze_groups, Goroutine, Freezes, launch, launched, moved, done, first_state,
  Reach, start, later,
}
use app_lifecycle_kubernetes.Startup.Groups.Held.{Ascends, Sorts}
use app_lifecycle_kubernetes.Startup.Groups.Order.{freeze_runs_in_order}
use app_lifecycle_kubernetes.Startup.Resumes.{start_resumes}
use app_lifecycle_kubernetes.Startup.Run.{with_trigger, trigger_pending, applied}
use app_lifecycle_kubernetes.Startup.Run.Outcomes.{
  ResumedLast, Applied-ResumedLast, trigger_is_ignored,
}
use app_lifecycle_kubernetes.Startup.Poll.{
  Polled, max_scan_wait, poll_nodes, PollClock, Told, poll_nodes_returns,
}
use app_lifecycle_kubernetes.Watches.{reconciles_update}
use app_lifecycle_kubernetes.Examples.Fixtures.{policy, World, client, world}

-- Sorting of numbers by insertion; the policies are kept as they come.
abbrev insert_number : (ℕ → ℕ → Bool) → ℕ → List ℕ → List ℕ
insert_number less n [] = n ∷ []
insert_number less n (m ∷ rest) =
    let behind = insert_number less n rest in if less m n then m ∷ behind else n ∷ m ∷ rest

abbrev sort_numbers : Sort ℕ
sort_numbers less [] = []
sort_numbers less (n ∷ rest) = insert_number less n (sort_numbers less rest)

abbrev keep_order : Sort Policy
keep_order less ps = ps

Every-le : (n m : ℕ) (ns : List ℕ) → n ≤ m → Every (λ k. m ≤ k) ns → Every (λ k. n ≤ k) ns
Every-le n m [] le h = tt
Every-le n m (k ∷ ns) le (first, h) = (omega arith, Every-le n m ns le h)

insert_number-Every :
    (least n : ℕ) (ns : List ℕ)
    → least ≤ n
    → Every (λ k. least ≤ k) ns
    → Every (λ k. least ≤ k) (insert_number ltb n ns)
insert_number-Every least n [] le h = (le, tt)
insert_number-Every least n (m ∷ ns) le (first, h) = elim (Bool-cases (ltb m n)) [
  | inl y ↦ rw y (first, insert_number-Every least n ns le h)
  | inr f ↦ rw f (le, (first, h))
]

insert_number-Ascends : (n : ℕ) (ns : List ℕ) → Ascends ns → Ascends (insert_number ltb n ns)
insert_number-Ascends n [] h = (tt, tt)
insert_number-Ascends n (m ∷ ns) (least, h) = elim (Bool-cases (ltb m n)) [
  | inl y ↦ rw y (insert_number-Every m n ns (ground arith) least, insert_number-Ascends n ns h)
  | inr f ↦ rw f ((ground arith, Every-le n m ns (ground arith) least), (least, h))
]

swapped : (x n m : ℕ) (ns : List ℕ) → In x (n ∷ m ∷ ns) → In x (m ∷ n ∷ ns)
swapped x n m ns (here e) = there (here e)
swapped x n m ns (there (here e)) = here e
swapped x n m ns (there (there i)) = there (there i)

behind_first : (x m : ℕ) (ns ks : List ℕ) → (In x ns → In x ks) → In x (m ∷ ns) → In x (m ∷ ks)
behind_first x m ns ks f (here e) = here e
behind_first x m ns ks f (there i) = there (f i)

insert_number-In : (x n : ℕ) (ns : List ℕ) → In x (n ∷ ns) → In x (insert_number ltb n ns)
insert_number-In x n [] i = i
insert_number-In x n (m ∷ ns) i = elim (Bool-cases (ltb m n)) [
  | inr f ↦ rw f i
  | inl y ↦ rw y (behind_first x m (n ∷ ns) _ (insert_number-In x n ns) (swapped x n m ns i))
]

sort_numbers-In : (x : ℕ) (ns : List ℕ) → In x ns → In x (sort_numbers ltb ns)
sort_numbers-In x [] i = i
sort_numbers-In x (n ∷ ns) i =
    insert_number-In x n (sort_numbers ltb ns)
      (behind_first x n ns (sort_numbers ltb ns) (sort_numbers-In x ns) i)

sort_numbers-Ascends : (ns : List ℕ) → Ascends (sort_numbers ltb ns)
sort_numbers-Ascends [] = tt
sort_numbers-Ascends (n ∷ ns) = insert_number-Ascends n _ (sort_numbers-Ascends ns)

sorts : Sorts keep_order sort_numbers
sorts = record {
  keeps_policies = λ less q ps i. i;
  keeps_numbers = sort_numbers-In;
  sorts_numbers = sort_numbers-Ascends;
}

abbrev frozen_at : ℕ → Policy
frozen_at priority = record policy {
  spec = record policy.spec { startup_policy = StartupPolicy.freeze; freeze_priority = priority };
}

-- The policies are listed in the other order.
abbrev first : Policy
first = frozen_at 0

abbrev second : Policy
second = frozen_at 1

-- A cluster in which no namespace can be read, so that each startup freeze ends at once.
abbrev cut_off : Client World
cut_off = record client {
  get_namespace = λ name w. (err canceled, w);
  list_policies = λ w. (ok (second ∷ first ∷ []), w);
}

abbrev select : NodeSelect World
select period seconds w = (timed_out, w)

abbrev groups : List (List Policy)
groups = freeze_groups keep_order sort_numbers (second ∷ first ∷ [])

groups_in_order : groups ≡ (first ∷ []) ∷ (second ∷ []) ∷ []
unfolding freeze_groups
groups_in_order = refl

abbrev state : List (List Policy) → List (Goroutine World) → List Policy → Freezes World
state waiting running ended = record {
  waiting = waiting;
  running = running;
  ended = ended;
  world = world;
}

abbrev Reached : Freezes World → Type 0
Reached = Reach cut_off select 301 (first_state groups world)

first_runs : Reached (state ((second ∷ []) ∷ []) (launch cut_off select 301 (first ∷ [])) [])
first_runs = later start (launched (first ∷ []) ((second ∷ []) ∷ []) refl groups_in_order refl)

first_returns : Reached (state ((second ∷ []) ∷ []) ((first, returned (some tt)) ∷ []) [])
unfolding process_policy_with_delay_and_freeze
first_returns = later first_runs (moved [] [] first _ _ refl refl)

first_is_done : Reached (state ((second ∷ []) ∷ []) [] (first ∷ []))
first_is_done = later first_returns (done [] [] first (some tt) refl refl)

second_runs : Reached (state [] (launch cut_off select 301 (second ∷ [])) (first ∷ []))
second_runs = later first_is_done (launched (second ∷ []) [] refl refl refl)

freeze_runs_in_order_example : In first (first ∷ [])
unfolding freeze_policies
freeze_runs_in_order_example =
    freeze_runs_in_order cut_off select 301 keep_order sort_numbers (second ∷ first ∷ []) world
      (state [] (launch cut_off select 301 (second ∷ [])) (first ∷ [])) second first sorts
      second_runs (here refl) (there (here refl)) (omega arith)

second_returns : Reached (state [] ((second, returned (some tt)) ∷ []) (first ∷ []))
unfolding process_policy_with_delay_and_freeze
second_returns = later second_runs (moved [] [] second _ _ refl refl)

both_done : Reached (state [] [] (first ∷ second ∷ []))
both_done = later second_returns (done [] [] second (some tt) refl refl)

abbrev world_after : World
world_after =
    trigger_pending cut_off
      (start_resumes cut_off keep_order select 301 (second ∷ first ∷ []) world)

Applied-ResumedLast_example :
    (policies : List Policy) × (u : World) × (cut_off.list_policies world ≡ (ok policies, u))
    × ResumedLast cut_off select 301 keep_order sort_numbers policies u world_after
Applied-ResumedLast_example =
    Applied-ResumedLast cut_off select 301 keep_order sort_numbers world world_after sorts (
      applied (second ∷ first ∷ []) world (state [] [] (first ∷ second ∷ [])) refl both_done refl
        refl refl)

-- A freeze that is delayed by five nanoseconds, in a cluster that can be read.
abbrev delayed : Policy
delayed = record policy {
  spec = record policy.spec { startup_policy = StartupPolicy.freeze; freeze_delay = 5 };
}

wall_clock : WallClock client
wall_clock = record {
  reads = λ w. w.clock;
  now_reads = λ w. refl;
  now_keeps = λ w. omega arith;
  sleep_moves = λ n w. omega arith;
  deployments_keep = λ namespace selector w. omega arith;
  sets_keep = λ namespace selector w. omega arith;
  policy_keeps = λ namespace name w. omega arith;
}

poll_clock : PollClock client
poll_clock = record {
  reads = λ w. w.clock;
  now_reads = λ w. refl;
  now_keeps = λ w. omega arith;
  nodes_keep = λ w. omega arith;
  tick_moves = λ n w h. omega arith;
}

-- The node `n2` is not ready.
poll_nodes_returns_example :
    (a : Polled × World) × (poll_nodes client 7 world ≡ some a)
    × Told client poll_clock.reads (poll_clock.reads world + max_scan_wait) a
poll_nodes_returns_example = poll_nodes_returns client poll_clock 7 world (omega arith)

trigger_is_ignored_example : reconciles_update 3 3 delayed (with_trigger "now" delayed) ≡ false
trigger_is_ignored_example = trigger_is_ignored 3 "now" delayed

-- ===== src/Throttle/Resume.antt =====
-- The loop of `resumeWithAdaptiveThrottling` in internal/controller/adaptive_throttling.go, over the
-- operations that it calls.
pub mod Tally
pub mod Trace
pub mod Advance
pub mod Ends
use app_lifecycle_kubernetes.Base.{
  ℕ, zero, suc, ◌+◌, ◌-◌, String, Bool, true, false, Option, none, some, List, [], ◌∷◌, ◌++◌, map,
  Result, ok, err, ◌==◌, Error, message, wrapped, panicked, Action, ltb, take, drop, length,
  default_if_zero, if◌then◌else◌,
}
use mathlib.Core.Option
use app_lifecycle_kubernetes.Base.Int.{pos}
use app_lifecycle_kubernetes.Base.Decimal.{itoa, number}
use app_lifecycle_kubernetes.Base.Text.{◌+++◌}
use app_lifecycle_kubernetes.Types.{Signal, node_not_ready, AdaptiveThrottlingConfig}
use app_lifecycle_kubernetes.Kube.{Workload}
use app_lifecycle_kubernetes.Throttle.{
  has_signal, calculate_batch_size, calculate_wait_duration, initial_size,
}

-- A Deployment or StatefulSet to resume (`workloadItem`; its name is the object's).
pub data WorkloadItem : Type 0 where
  deployment stateful_set : Workload → WorkloadItem

abbrev pub item_name : WorkloadItem → String
item_name (deployment w) = w.name
item_name (stateful_set w) = w.name

abbrev pub all_workloads : List Workload → List Workload → List WorkloadItem
all_workloads deployments stateful_sets =
    map deployment deployments ++ map stateful_set stateful_sets

-- What the loop calls: `checkManualOverride`, `collectSignals`, `ctx.Err()`, `waitForSignalClear` for
-- NodeNotReady (`none` where it runs out of fuel), `updateAdaptiveProgress` with its error logged, the two resumes, `time.Sleep`, and the
-- final status update with its error logged.
pub record Services (W : Type 0) : Type 0 where
  pub override : Action W Bool
  pub collect : Action W (List Signal)
  pub context_error : W → Option Error
  pub wait_ready : W → Option (Bool × W)
  pub report : (resumed total batch_size : ℕ) → List Signal → String → W → W
  pub resume_deployment : Workload → Action W (Unit {0})
  pub resume_stateful_set : Workload → Action W (Unit {0})
  pub sleep : ℕ → W → W
  pub complete : (total batch_size : ℕ) → W → W

abbrev pub aborted : Error
aborted = message "operation aborted due to manual override"

-- `shouldAbort, err := …` where an error is only logged.
abbrev pub says_abort : Result Bool → Bool
says_abort (ok b) = b
says_abort (err e) = false

module _ {W : Type 0} (sv : Services W) where
  unfoldable pub resume_item : WorkloadItem → Action W (Unit {0})
  resume_item (deployment w) = sv.resume_deployment w
  resume_item (stateful_set w) = sv.resume_stateful_set w

abbrev failure_text : WorkloadItem → String
failure_text (deployment w) = "failed to resume deployment " +++ w.name
failure_text (stateful_set w) = "failed to resume statefulset " +++ w.name

-- How a batch, a round or the loop ends: with an error that is returned, or with the next state.
pub data Outcome (S : Type 0) : Type 0 where
  stop : Error → Outcome S
  next : S → Outcome S

module _ {W : Type 0} (sv : Services W) where
  -- The loop over a batch, with the count of resumed workloads; every workload is preceded by a check
  -- for a manual override.
  unfoldable pub process_batch : List WorkloadItem → ℕ → W → Outcome ℕ × W
  unfolding resume_item
  process_batch [] resumed w = (next resumed, w)
  process_batch (item ∷ items) resumed w =
      let (abort, w₁) = sv.override w in
      let (done, w₂) = resume_item sv item w₁ in
      let rest = process_batch items (suc resumed) w₂ in
      if says_abort abort
      then (stop aborted, w₁)
      else elim done [ ok _ ↦ rest | err e ↦ (stop (wrapped (failure_text item) e), w₂) ]

-- `batchEnd` in int32: a sum from 2 ^ 31 on wraps to a negative number, which as the end of a slice is
-- a fault.
unfoldable pub batch_end : ℕ → ℕ → ℕ → Option ℕ
batch_end resumed size total =
    let sum = resumed + size in
    if ltb sum 2147483648 then (if ltb total sum then some total else some sum) else none

pub record LoopState : Type 0 where
  pub resumed : ℕ
  pub batch_size : ℕ

abbrev batch_text : ℕ → ℕ → ℕ → String
batch_text size resumed total =
    "Resuming batch (batch size: "
    +++ number size
    +++ ", "
    +++ number resumed
    +++ "/"
    +++ number total
    +++ " completed)"

module _ {W : Type 0} (sv : Services W) (config : AdaptiveThrottlingConfig)
    (workloads : List WorkloadItem) where
  -- Step 6: the pause, unless all is resumed.
  unfoldable pub pause : List Signal → Outcome ℕ → ℕ → W → Outcome LoopState × W
  pause signals (stop e) size w = (stop e, w)
  pause signals (next resumed) size w = (
    next (record { resumed = resumed; batch_size = size }),
    if ltb resumed (length workloads)
        then sv.sleep (calculate_wait_duration signals (default_if_zero 5 config.batch_interval)) w
        else w,
  )

  -- Steps 4 to 6, for a batch that ends at `end`.
  unfoldable pub run_batch : List Signal → ℕ → ℕ → Option ℕ → W → Outcome LoopState × W
  unfolding pause
  run_batch signals resumed size none w = (stop (panicked "slice bounds out of range"), w)
  run_batch signals resumed size (some end) w =
      let batch = take (end - resumed) (drop resumed workloads) in
      let w₁ =
        sv.report resumed (length workloads) size signals
          (batch_text (length batch) resumed (length workloads)) w in
      let (outcome, w₂) = process_batch sv batch resumed w₁ in pause signals outcome size w₂

  -- What the wait for the nodes leads to: the next round, a timeout, or nothing on too little fuel.
  unfoldable pub after_wait : Option (Bool × W) → LoopState → Option (Outcome LoopState × W)
  after_wait none p = none
  after_wait (some (true, w)) p = some (next p, w)
  after_wait (some (false, w)) p =
      some (stop (message "timeout waiting for nodes to become ready"), w)

  -- Steps 2 to 6, after the signals are known and the context was seen alive.
  unfoldable pub act_on : List Signal → LoopState → W → Option (Outcome LoopState × W)
  unfolding run_batch after_wait
  act_on signals p w =
      let w₁ =
        sv.report p.resumed (length workloads) p.batch_size signals
          "Paused - waiting for nodes to become ready" w in
      let size = calculate_batch_size signals config p.batch_size in
      if has_signal signals node_not_ready
      then after_wait (sv.wait_ready w₁) p
      else some (run_batch signals p.resumed size (batch_end p.resumed size (length workloads)) w)

  -- The second look at the context, and what follows.
  unfoldable pub go_on : Option Error → List Signal → LoopState → W → Option (Outcome LoopState × W)
  unfolding act_on
  go_on (some gone) signals p w = some (stop gone, w)
  go_on none signals p w = act_on signals p w

  -- The signals could not be collected: a cancelled context, the fallback without signals, or an error.
  unfoldable pub without_signals :
      Option Error → Error → LoopState → W → Option (Outcome LoopState × W)
  unfolding go_on
  without_signals (some gone) e p w = some (stop gone, w)
  without_signals none e p w =
      if config.fallback_on_metrics_unavailable
      then go_on (sv.context_error w) [] p w
      else some (stop (wrapped "failed to collect signals" e), w)

  unfoldable pub with_signals :
      Result (List Signal) → LoopState → W → Option (Outcome LoopState × W)
  unfolding without_signals
  with_signals (ok signals) p w = go_on (sv.context_error w) signals p w
  with_signals (err e) p w = without_signals (sv.context_error w) e p w

  -- One turn of `for resumedCount < totalWorkloads`.
  unfoldable pub round : LoopState → W → Option (Outcome LoopState × W)
  unfolding with_signals
  round p w =
      let (abort, w₁) = sv.override w in
      let (collected, w₂) = sv.collect w₁ in
      if says_abort abort then some (stop aborted, w₁) else with_signals collected p w₂

  -- The loop on fuel; `none` means that its fuel or that of a wait ran out.
  unfoldable pub rounds : ℕ → LoopState → W → Option (Outcome LoopState × W)
  unfolding round
  rounds zero p w = none
  rounds (suc fuel) p w = elim (ltb p.resumed (length workloads)) [
    | false ↦ some (next p, w)
    | true ↦ elim (round p w) [
      | none ↦ none
      | some (stop e, w₁) ↦ some (stop e, w₁)
      | some (next p₁, w₁) ↦ rounds fuel p₁ w₁
    ]
  ]

  abbrev pub start : LoopState
  start = record { resumed = 0; batch_size = initial_size config }

  -- What is returned when the loop has ended.
  unfoldable pub returned : Outcome LoopState × W → Result (Unit {0}) × W
  returned (stop e, w) = (err e, w)
  returned (next p, w) = (ok tt, sv.complete (length workloads) p.batch_size w)

  -- The whole function.
  unfoldable pub resume_with_adaptive_throttling : ℕ → W → Option (Result (Unit {0}) × W)
  unfolding rounds returned
  resume_with_adaptive_throttling fuel w =
      if length workloads == 0 then some (ok tt, w) else Option.map returned (rounds fuel start w)

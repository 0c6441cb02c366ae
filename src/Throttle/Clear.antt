-- ===== src/Throttle/Clear.antt =====
-- The wait until a signal has cleared: `waitForSignalClear` of
-- internal/controller/adaptive_throttling.go.
pub mod Ends
use app_lifecycle_kubernetes.Base.{
  ℕ, zero, suc, ◌*◌, ◌-◌, String, Bool, true, false, not, Option, none, some, List, Action, Result,
  ok, err, ltb, default_if_zero, if◌then◌else◌,
}
use app_lifecycle_kubernetes.Types.{
  Signal, SignalType, AdaptiveThrottlingConfig, SignalChecksConfig, NodeReadyCheckConfig,
}
use app_lifecycle_kubernetes.Client.{Client}
use app_lifecycle_kubernetes.Throttle.{has_signal, second}
use app_lifecycle_kubernetes.Signals.Collect.{NodeMetricsCache, Found, Scrape, collect_signals}

abbrev ready_check : Option SignalChecksConfig → Option NodeReadyCheckConfig
ready_check none = none
ready_check (some checks) = checks.check_node_ready

abbrev interval_of : Option NodeReadyCheckConfig → ℕ
interval_of none = 20
interval_of (some check) = default_if_zero 20 check.wait_interval

abbrev limit_of : Option NodeReadyCheckConfig → ℕ
limit_of none = 1800
limit_of (some check) = default_if_zero 1800 check.max_wait_time

-- The interval between two looks, and the longest wait, both in seconds.
unfoldable pub wait_interval : AdaptiveThrottlingConfig → ℕ
wait_interval config = interval_of (ready_check config.signal_checks)

unfoldable pub max_wait_time : AdaptiveThrottlingConfig → ℕ
max_wait_time config = limit_of (ready_check config.signal_checks)

-- What a look says: `some` where the wait is over, by the signals or by an error.
unfoldable pub look : AdaptiveThrottlingConfig → SignalType → Result Found → Option Bool
look config type (err e) = some config.fallback_on_metrics_unavailable
look config type (ok found) = if has_signal found.0 type then none else some true

-- The loop: `elapsed` is what has passed since `start`, the time at which the resume began. `none`
-- means that the fuel ran out.
unfoldable pub wait_loop :
    {W : Type 0}
    → Client W
    → Scrape W
    → AdaptiveThrottlingConfig
    → String
    → SignalType
    → (start fuel elapsed : ℕ) → NodeMetricsCache × W
    → Option (Bool × (NodeMetricsCache × W))
unfolding look wait_interval max_wait_time
wait_loop c scrape config namespace type start zero elapsed v = none
wait_loop c scrape config namespace type start (suc fuel) elapsed (cache, w) =
    let (ticked, w₁) = c.tick (wait_interval config * second) w in
    let (found, (cache₂, w₂)) = collect_signals c scrape (some config) namespace (cache, w₁) in
    let (now, w₃) = c.now w₂ in
    let later = wait_loop c scrape config namespace type start fuel (now - start) (cache₂, w₃) in
    if ltb elapsed (max_wait_time config * second)
    then (if ticked
        then elim (look config type found) [
          | some answer ↦ some (answer, (cache₂, w₂))
          | none ↦ later
        ]
        else some (false, (cache, w₁)))
    else some (false, (cache, w))

unfoldable pub wait_for_signal_clear :
    {W : Type 0}
    → Client W
    → Scrape W
    → AdaptiveThrottlingConfig
    → String
    → SignalType
    → (start fuel : ℕ) → NodeMetricsCache × W
    → Option (Bool × (NodeMetricsCache × W))
unfolding wait_loop
wait_for_signal_clear c scrape config namespace type start fuel (cache, w) =
    let (now, w₁) = c.now w in
    wait_loop c scrape config namespace type start fuel (now - start) (cache, w₁)

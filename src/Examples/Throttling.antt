-- ===== src/Examples/Throttling.antt =====
-- Adaptive throttling on concrete inputs.
use app_lifecycle_kubernetes.Base.{
  ◌+◌, ◌≤◌, ◌<◌, ◌*◌, ◌^◌, min, if◌then◌else◌, true, [], ◌∷◌, ◌≡◌, refl, arith, length,
}
use app_lifecycle_kubernetes.Types.{
  Signal, SignalType, SignalSeverity, node_pressure, pending_pods, node_usage, container_restarts,
  node_not_ready,
}
use app_lifecycle_kubernetes.Throttle.{
  calculate_batch_size, calculate_wait_duration, slowed, initial_size, second, has_signal,
}
use app_lifecycle_kubernetes.Throttle.Batch.{PercentsFit, after_rounds, after_rounds-calm, IsCalm}
use app_lifecycle_kubernetes.Throttle.Wait.{calculate_wait_duration_bounds}
use app_lifecycle_kubernetes.Examples.Fixtures.{throttling}

abbrev signal : SignalType → Signal
signal type = record {
  type = type;
  severity = SignalSeverity.warning;
  node = "n1";
  condition = "";
  count = 0;
  message = "";
}

-- 4 * 25 / 100 is 1, which the minimum of 2 replaces.
slowed_by_restarts : calculate_batch_size (signal container_restarts ∷ []) throttling 4 ≡ 2
unfolding calculate_batch_size has_signal slowed
slowed_by_restarts = refl

fits : PercentsFit throttling
fits node_not_ready p e = cc e
fits node_pressure p e = ground (arith, e)
fits node_usage p e = cc e
fits container_restarts p e = ground (arith, e)
fits pending_pods p e = cc e

IsCalm-empty : IsCalm []
unfolding has_signal
IsCalm-empty = record { no_pressure = refl; no_usage = refl; no_restarts = refl; no_pending = refl }

IsCalm-not_ready : IsCalm (signal node_not_ready ∷ [])
unfolding has_signal
IsCalm-not_ready = record {
  no_pressure = refl;
  no_usage = refl;
  no_restarts = refl;
  no_pending = refl;
}

after_rounds-calm_example :
    after_rounds throttling ([] ∷ (signal node_not_ready ∷ []) ∷ [] ∷ []) 2
    ≡ min (2 + length ([] ∷ (signal node_not_ready ∷ []) ∷ [] ∷ [])) (initial_size throttling)
after_rounds-calm_example =
    after_rounds-calm throttling ([] ∷ (signal node_not_ready ∷ []) ∷ [] ∷ []) 2
      (IsCalm-empty, (IsCalm-not_ready, (IsCalm-empty, tt))) (omega arith)

pressure_seen : has_signal (signal node_pressure ∷ []) node_pressure ≡ true
unfolding has_signal
pressure_seen = refl

pressure_behind : has_signal (signal pending_pods ∷ signal node_pressure ∷ []) node_pressure ≡ true
unfolding has_signal
pressure_behind = refl

calculate_wait_duration_bounds_example :
    (2 * calculate_wait_duration (signal pending_pods ∷ []) 5
      ≡ 5
        * second
        * (if has_signal (signal pending_pods ∷ []) node_pressure then 2 else 1)
        * (if has_signal (signal pending_pods ∷ []) pending_pods then 3 else 2)
        * (if has_signal (signal pending_pods ∷ []) container_restarts then 2 else 1))
    × (5 * second ≤ calculate_wait_duration (signal pending_pods ∷ []) 5)
    × (calculate_wait_duration (signal pending_pods ∷ []) 5 ≤ 6 * (5 * second))
    × (3 * calculate_wait_duration (signal pending_pods ∷ []) 5 < 2 ^ 63)
calculate_wait_duration_bounds_example =
    calculate_wait_duration_bounds (signal pending_pods ∷ []) 5 (omega arith)

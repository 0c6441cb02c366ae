-- ===== src/Throttle/Wait.antt =====
-- The pause between two batches.
use app_lifecycle_kubernetes.Base.{ℕ, ◌*◌, ◌≤◌, ◌<◌, ◌^◌, List, ◌≡◌, arith, if◌then◌else◌}
use app_lifecycle_kubernetes.Types.{Signal, node_pressure, pending_pods, container_restarts}
use app_lifecycle_kubernetes.Throttle.{has_signal, second, calculate_wait_duration}

calculate_wait_duration_lem :
    (signals : List Signal) (base : ℕ)
    → 2 * calculate_wait_duration signals base
      ≡ base
        * second
        * (if has_signal signals node_pressure then 2 else 1)
        * (if has_signal signals pending_pods then 3 else 2)
        * (if has_signal signals container_restarts then 2 else 1)
unfolding calculate_wait_duration
calculate_wait_duration_lem signals base = ground arith

-- The pause is the interval, times 2 under node pressure, times 3/2 with pending pods and times 2 with
-- crashing containers, with no half lost in the division. So it is at least the interval and at most
-- six times as long, and with the interval of at most
-- 60 seconds that validation allows it fits an int64 of nanoseconds, also when multiplied by 3.
pub calculate_wait_duration_bounds :
    (signals : List Signal) (base : ℕ)
    → base ≤ 60
    → (2 * calculate_wait_duration signals base
        ≡ base
          * second
          * (if has_signal signals node_pressure then 2 else 1)
          * (if has_signal signals pending_pods then 3 else 2)
          * (if has_signal signals container_restarts then 2 else 1))
      × (base * second ≤ calculate_wait_duration signals base)
      × (calculate_wait_duration signals base ≤ 6 * (base * second))
      × (3 * calculate_wait_duration signals base < 2 ^ 63)
unfolding calculate_wait_duration
calculate_wait_duration_bounds signals base h =
    (calculate_wait_duration_lem signals base, ground arith, ground arith, ground arith)

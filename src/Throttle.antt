-- ===== src/Throttle.antt =====
-- Adaptive throttling: internal/controller/adaptive_throttling.go. How many workloads the next batch
-- of a resume takes and how long the pause behind it lasts; the loop itself is in `Resume`.
pub mod Batch
pub mod Wait
pub mod Wired
pub mod Clear
pub mod Resume
use app_lifecycle_kubernetes.Base.{
  ℕ, ◌+◌, ◌*◌, ◌/◌, ◌%◌, Bool, true, false, ◌||◌, Option, none, some, List, [], ◌∷◌, ◌++◌, ltb,
  default_if_zero, if◌then◌else◌, not, any,
}
use app_lifecycle_kubernetes.Types.{
  Signal, SignalType, node_not_ready, node_pressure, pending_pods, node_usage, container_restarts,
  signal_eq, AdaptiveThrottlingConfig, SignalChecksConfig, NodePressureCheckConfig,
  PendingPodsCheckConfig, NodeUsageCheckConfig, ContainerRestartsCheckConfig,
}

unfoldable pub has_signal : List Signal → SignalType → Bool
has_signal [] type = false
has_signal (s ∷ rest) type = if signal_eq s.type type then true else has_signal rest type

-- `min` of two int32.
abbrev min : ℕ → ℕ → ℕ
min a b = if ltb a b then a else b

-- `(size * percent) / 100` in int32, raised to `least`. A product from 2 ^ 31 on wraps; what has wrapped
-- to a negative number is at most 0 after the division, which `least` replaces.
unfoldable pub slowed : ℕ → ℕ → ℕ → ℕ
slowed size percent least =
    let product = size * percent % 4294967296 in
    let new_size = product / 100 in
    if ltb product 2147483648 then (if ltb new_size least then least else new_size) else least

-- The percentage of a check, with its default; `none` where the check is not configured.
abbrev pressure_percent : Option NodePressureCheckConfig → Option ℕ
pressure_percent none = none
pressure_percent (some check) = some (default_if_zero 50 check.slowdown_percent)

abbrev usage_percent : Option NodeUsageCheckConfig → Option ℕ
usage_percent none = none
usage_percent (some check) = some (default_if_zero 60 check.slowdown_percent)

abbrev restarts_percent : Option ContainerRestartsCheckConfig → Option ℕ
restarts_percent none = none
restarts_percent (some check) = some (default_if_zero 50 check.slowdown_percent)

abbrev pending_percent : Option PendingPodsCheckConfig → Option ℕ
pending_percent none = none
pending_percent (some check) = some (default_if_zero 70 check.slowdown_percent)

-- The percentage that applies for a signal type. Without any checks there are no signals.
abbrev pub slowdown : SignalType → Option SignalChecksConfig → Option ℕ
slowdown type none = none
slowdown node_not_ready (some checks) = none
slowdown node_pressure (some checks) = pressure_percent checks.check_node_pressure
slowdown node_usage (some checks) = usage_percent checks.check_node_usage
slowdown container_restarts (some checks) = restarts_percent checks.check_container_restarts
slowdown pending_pods (some checks) = pending_percent checks.check_pending_pods

-- `hasSignal(…) && … != nil`, with the percentage.
abbrev pub active : List Signal → AdaptiveThrottlingConfig → SignalType → Option ℕ
active signals config type =
    if has_signal signals type then slowdown type config.signal_checks else none

abbrev pub slow_or : Option ℕ → ℕ → ℕ → ℕ → ℕ
slow_or none size least otherwise = otherwise
slow_or (some percent) size least otherwise = slowed size percent least

abbrev pub initial_size : AdaptiveThrottlingConfig → ℕ
initial_size config = default_if_zero 3 config.initial_batch_size

abbrev pub least_size : AdaptiveThrottlingConfig → ℕ
least_size config = default_if_zero 1 config.min_batch_size

unfoldable pub calculate_batch_size : List Signal → AdaptiveThrottlingConfig → ℕ → ℕ
unfolding slowed has_signal
calculate_batch_size signals config current =
    let initial = initial_size config in
    let least = least_size config in
    let recovered = if ltb current initial then min (current + 1) initial else current in
    slow_or (active signals config node_pressure) initial least (
      slow_or (active signals config node_usage) initial least (
        slow_or (active signals config container_restarts) initial least
          (slow_or (active signals config pending_pods) current least recovered)))

abbrev pub second : ℕ
second = 1000000000

-- The pause in nanoseconds. The resource's validation bounds the interval by 60 seconds, far from
-- what an int64 of nanoseconds holds.
unfoldable pub calculate_wait_duration : List Signal → ℕ → ℕ
unfolding has_signal
calculate_wait_duration signals base =
    let plain = base * second in
    let pressed = if has_signal signals node_pressure then plain * 2 else plain in
    let waiting = if has_signal signals pending_pods then pressed * 3 / 2 else pressed in
    if has_signal signals container_restarts then waiting * 2 else waiting

-- The signal types in the order of their first signals, `types` and `seen` of the source in one list.
unfoldable pub collect_types : List Signal → List SignalType → List SignalType
collect_types [] types = types
collect_types (s ∷ rest) types =
    collect_types rest (if any (signal_eq s.type) types then types else types ++ s.type ∷ [])

unfoldable pub get_signal_types : List Signal → List SignalType
unfolding collect_types
get_signal_types signals = collect_types signals []

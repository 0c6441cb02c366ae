-- ===== src/Throttle/Batch.antt =====
-- Bounds and recovery of the batch size.
use app_lifecycle_kubernetes.Base.{
  ℕ, ◌+◌, ◌*◌, ◌≤◌, ◌<◌, max, min, length, [], ◌∷◌, true, false, Option, none, some, List, ◌≡◌,
  refl, arith, ltb, default_if_zero, if◌then◌else◌, Bool-cases, inl, inr, ◌∙◌,
}
use app_lifecycle_kubernetes.Types.{
  Signal, SignalType, node_pressure, pending_pods, node_usage, container_restarts,
  AdaptiveThrottlingConfig,
}
use app_lifecycle_kubernetes.Throttle.{
  has_signal, slowed, slowdown, slow_or, active, initial_size, least_size, calculate_batch_size,
}

slowed-least : (size percent least : ℕ) → least ≤ slowed size percent least
unfolding slowed
slowed-least size percent least = ground arith

pub default-pos : (d n : ℕ) → 0 < d → 0 < default_if_zero d n
default-pos d n h = ground arith

slow_or-floor :
    (o : Option ℕ) (size least otherwise floor : ℕ)
    → floor ≤ least
    → floor ≤ otherwise
    → floor ≤ slow_or o size least otherwise
slow_or-floor none size least otherwise floor h k = k
slow_or-floor (some percent) size least otherwise floor h k =
    omega (arith, slowed-least size percent least)

recovered-floor :
    (current initial floor : ℕ)
    → floor ≤ current
    → floor ≤ (
        if ltb current initial
        then (if ltb (current + 1) initial then current + 1 else initial)
        else current)
recovered-floor current initial floor h = ground arith

floor-le-calculate_batch_size :
    (signals : List Signal) (config : AdaptiveThrottlingConfig) (current floor : ℕ)
    → floor ≤ least_size config
    → floor ≤ current
    → floor ≤ calculate_batch_size signals config current
unfolding calculate_batch_size
floor-le-calculate_batch_size signals config current floor h k =
    slow_or-floor (active signals config node_pressure) (initial_size config) _ _ _ h (
      slow_or-floor (active signals config node_usage) (initial_size config) _ _ _ h (
        slow_or-floor (active signals config container_restarts) (initial_size config) _ _ _ h (
          slow_or-floor (active signals config pending_pods) current _ _ _ h
            (recovered-floor current (initial_size config) floor k))))

-- The batch size never falls below the configured minimum (1 if none is configured), whatever the
-- signals, once it starts at or above it.
pub least-le-calculate_batch_size :
    (signals : List Signal) (config : AdaptiveThrottlingConfig) (current : ℕ)
    → least_size config ≤ current
    → least_size config ≤ calculate_batch_size signals config current
least-le-calculate_batch_size signals config current h =
    floor-le-calculate_batch_size signals config current _ (omega arith) h

-- A batch never becomes empty, so that each one makes progress.
pub calculate_batch_size-pos :
    (signals : List Signal) (config : AdaptiveThrottlingConfig) (current : ℕ)
    → 0 < current
    → 0 < calculate_batch_size signals config current
calculate_batch_size-pos signals config current h =
    floor-le-calculate_batch_size signals config current 1
      (default-pos 1 config.min_batch_size (omega arith)) h

slowed-le : (size percent least : ℕ) → percent ≤ 100 → slowed size percent least ≤ max size least
unfolding slowed
slowed-le size percent least h =
    let product : size * percent ≤ size * 100 = grind arith in ground arith

-- Every configured slowdown is at most 100 percent, as the resource's validation demands.
abbrev pub PercentsFit : AdaptiveThrottlingConfig → Type 0
PercentsFit config =
    (type : SignalType) (percent : ℕ)
    → slowdown type config.signal_checks ≡ some percent
    → percent ≤ 100

active-fits :
    (signals : List Signal) (config : AdaptiveThrottlingConfig) (type : SignalType)
    → PercentsFit config
    → (percent : ℕ) → active signals config type ≡ some percent
    → percent ≤ 100
active-fits signals config type fits percent e = elim (Bool-cases (has_signal signals type)) [
  | inl seen ↦ fits type percent (rw seen at e)
  | inr unseen ↦ cc (rw unseen at e)
]

slow_or-le :
    (o : Option ℕ) (size least otherwise bound : ℕ)
    → ((percent : ℕ) → o ≡ some percent → percent ≤ 100)
    → max size least ≤ bound
    → otherwise ≤ bound
    → slow_or o size least otherwise ≤ bound
slow_or-le none size least otherwise bound fits h k = k
slow_or-le (some percent) size least otherwise bound fits h k =
    omega (arith, slowed-le size percent least (fits percent refl))

recovered-le :
    (current initial bound : ℕ)
    → current ≤ bound
    → initial ≤ bound
    → (if ltb current initial
        then (if ltb (current + 1) initial then current + 1 else initial)
        else current)
      ≤ bound
recovered-le current initial bound h k = ground arith

-- With slowdowns of at most 100 percent the batch size never passes the largest of the initial size,
-- the minimum and the current size.
pub calculate_batch_size-le :
    (signals : List Signal) (config : AdaptiveThrottlingConfig) (current : ℕ)
    → PercentsFit config
    → calculate_batch_size signals config current
      ≤ max (max (initial_size config) (least_size config)) current
unfolding calculate_batch_size
calculate_batch_size-le signals config current fits =
    slow_or-le (active signals config node_pressure) (initial_size config) _ _ _
      (active-fits signals config node_pressure fits) (omega arith)
      (slow_or-le (active signals config node_usage) (initial_size config) _ _ _
        (active-fits signals config node_usage fits) (omega arith)
        (slow_or-le (active signals config container_restarts) (initial_size config) _ _ _
          (active-fits signals config container_restarts fits) (omega arith)
          (slow_or-le (active signals config pending_pods) current _ _ _
            (active-fits signals config pending_pods fits) (omega arith)
            (recovered-le current (initial_size config) _ (omega arith) (omega arith)))))

-- None of the signals that slow a resume down.
pub record IsCalm (signals : List Signal) : Type 0 where
  pub no_pressure : has_signal signals node_pressure ≡ false
  pub no_usage : has_signal signals node_usage ≡ false
  pub no_restarts : has_signal signals container_restarts ≡ false
  pub no_pending : has_signal signals pending_pods ≡ false

calculate_batch_size-calm :
    (signals : List Signal) (config : AdaptiveThrottlingConfig) (current : ℕ)
    → IsCalm signals
    → calculate_batch_size signals config current
      ≡ (if ltb current (initial_size config) then current + 1 else current)
unfolding calculate_batch_size
calculate_batch_size-calm signals config current calm =
    rw (calm.no_pressure, calm.no_usage, calm.no_restarts, calm.no_pending) (ground arith)

-- The batch size after one round for each of the signal lists.
abbrev pub after_rounds : AdaptiveThrottlingConfig → List (List Signal) → ℕ → ℕ
after_rounds config [] current = current
after_rounds config (signals ∷ rounds) current =
    after_rounds config rounds (calculate_batch_size signals config current)

abbrev pub AllCalm : List (List Signal) → Type 0
AllCalm [] = Unit {0}
AllCalm (signals ∷ rounds) = IsCalm signals × AllCalm rounds

-- While no slowing signal is seen, the batch size grows by one in each round until it is back at the
-- initial size, and stays there.
pub after_rounds-calm :
    (config : AdaptiveThrottlingConfig) (rounds : List (List Signal)) (current : ℕ)
    → AllCalm rounds
    → current ≤ initial_size config
    → after_rounds config rounds current ≡ min (current + length rounds) (initial_size config)
after_rounds-calm config [] current calm h = omega arith
after_rounds-calm config (signals ∷ rounds) current calm h =
    let next = calculate_batch_size-calm signals config current calm.0 in
    after_rounds-calm config rounds _ calm.1 (ground (arith, next)) ∙ ground (arith, next)

-- Node pressure overrules everything else: where its check is configured, the batch size depends on
-- neither the other signals nor the current size.
pub calculate_batch_size-pressure :
    (signals others : List Signal) (config : AdaptiveThrottlingConfig) (current other_size : ℕ)
    {percent : ℕ}
    → slowdown node_pressure config.signal_checks ≡ some percent
    → has_signal signals node_pressure ≡ true
    → has_signal others node_pressure ≡ true
    → (calculate_batch_size signals config current
        ≡ slowed (initial_size config) percent (least_size config))
      × (calculate_batch_size signals config current
          ≡ calculate_batch_size others config other_size)
unfolding calculate_batch_size
calculate_batch_size-pressure signals others config current other_size e p q =
    (rw (p, e), rw (p, q, e))

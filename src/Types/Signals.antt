-- ===== src/Types/Signals.antt =====
-- Signals of cluster stress (`SignalType`, `SignalSeverity`, `Signal`).
use app_lifecycle_kubernetes.Base.{ℕ, String, Bool, true, false}

pub data SignalType : Type 0 where
  node_not_ready node_pressure pending_pods node_usage container_restarts : SignalType

pub data SignalSeverity : Type 0 where
  critical warning info : SignalSeverity

-- `count` is left at zero and `condition` empty where the source does not set them.
pub record Signal : Type 0 where
  pub type : SignalType
  pub severity : SignalSeverity
  pub node : String
  pub condition : String
  pub count : ℕ
  pub message : String

-- `a == b` on signal types.
abbrev pub signal_eq : SignalType → SignalType → Bool
signal_eq node_not_ready node_not_ready = true
signal_eq node_pressure node_pressure = true
signal_eq pending_pods pending_pods = true
signal_eq node_usage node_usage = true
signal_eq container_restarts container_restarts = true
signal_eq _ _ = false

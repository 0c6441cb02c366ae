-- ===== src/Startup/Freezing/Returns.antt =====
-- The startup freeze of a policy ends.
use app_lifecycle_kubernetes.Base.{ℕ, ◌+◌, ◌-◌, ◌*◌, ◌≤◌, String, Option, none, some, ◌≡◌}
use app_lifecycle_kubernetes.Types.{LabelSelector}
use app_lifecycle_kubernetes.Client.{Client}
use app_lifecycle_kubernetes.Startup.Freezing.{poll_interval}

-- A clock that no call turns back and that a sleep moves on by its length.
pub record WallClock {W : Type 0} (c : Client W) : Type 0 where
  pub reads : W → ℕ
  pub now_reads : (w : W) → (c.now w).0 ≡ reads w
  pub now_keeps : (w : W) → reads w ≤ reads (c.now w).1
  pub sleep_moves : (n : ℕ) (w : W) → reads w + n ≤ reads (c.sleep n w)
  pub deployments_keep :
      (namespace : String) (selector : Option LabelSelector) (w : W)
      → reads w ≤ reads (c.deployments.list namespace selector w).1
  pub sets_keep :
      (namespace : String) (selector : Option LabelSelector) (w : W)
      → reads w ≤ reads (c.stateful_sets.list namespace selector w).1
  pub policy_keeps :
      (namespace name : String) (w : W) → reads w ≤ reads (c.get_policy namespace name w).1

-- A result: the fuel did not run out.
abbrev pub Given : {A : Type 0} → Option A → Type 0
Given none = ⊥
Given (some a) = Unit {0}

module _ {W : Type 0} (c : Client W) (clock : WallClock c) where
  open clock use {reads}

  -- A time from which on a loop's rounds fit into the fuel; one more sees that the time is over.
  abbrev Fits : ℕ → ℕ → ℕ → Type 0
  Fits limit fuel t = (limit - t) + poll_interval ≤ fuel * poll_interval

-- ===== src/Startup/Run.antt =====
-- The startup as a whole: `applyStartupPolicies` of cmd/main.go, and the runnable of `main` that calls it
-- behind the poll of the nodes.
pub mod Outcomes
use app_lifecycle_kubernetes.Base.{
  ℕ, String, Bool, true, false, List, [], ◌∷◌, Option, some, Result, ok, err, Error, logged, ◌≡◌,
  ◌≢◌, if◌then◌else◌,
}
use app_lifecycle_kubernetes.Base.Dict.{insert}
use app_lifecycle_kubernetes.Types.{Policy}
use app_lifecycle_kubernetes.Kube.{Node}
use app_lifecycle_kubernetes.Client.{Client}
use app_lifecycle_kubernetes.Override.{is_checking}
use app_lifecycle_kubernetes.Startup.{Sort}
use app_lifecycle_kubernetes.Nodes.Wait.{NodeSelect}
use app_lifecycle_kubernetes.Startup.Resumes.{start_resumes}
use app_lifecycle_kubernetes.Startup.Groups.{freeze_groups, Freezes, first_state, Reach}
use app_lifecycle_kubernetes.Startup.Poll.{Polled, gone, poll_nodes}

-- The annotation with the time of the startup.
unfoldable pub with_trigger : String → Policy → Policy
with_trigger time latest = record latest {
  metadata = record latest.metadata {
    annotations = insert "apps.ops.dev/precondition-trigger" time latest.annotations;
  };
}

-- The policy as it was read again; an error is only logged.
unfoldable pub trigger_latest : {W : Type 0} → Client W → Result Policy → W → W
unfolding with_trigger
trigger_latest c (err e) w = w
trigger_latest c (ok latest) w =
    let (now, w₁) = c.now w in logged (c.update_policy (with_trigger (c.format_time now) latest)) w₁

unfoldable pub trigger : {W : Type 0} → Client W → Policy → W → W
unfolding trigger_latest
trigger c p w =
    let (read, w₁) = c.get_policy p.namespace p.name w in
    if is_checking p.status.pre_conditions_status then trigger_latest c read w₁ else w

-- The loop over the policies whose pre-conditions are being checked.
unfoldable pub trigger_all : {W : Type 0} → Client W → Result (List Policy) → W → W
unfolding trigger
trigger_all c (err e) w = w
trigger_all c (ok []) w = w
trigger_all c (ok (p ∷ rest)) w = trigger_all c (ok rest) (trigger c p w)

unfoldable pub trigger_pending : {W : Type 0} → Client W → W → W
unfolding trigger_all
trigger_pending c w = let (policies, w₁) = c.list_policies w in trigger_all c policies w₁

module _ {W : Type 0} (c : Client W) (select : NodeSelect W) (fuel : ℕ) (sort : Sort Policy)
    (sort_numbers : Sort ℕ) where
  -- A run of `applyStartupPolicies`. Its freezes go by any schedule of the goroutines, and the resumes
  -- begin once the last group is done.
  pub data Applied (w : W) : Result (Unit {0}) → W → Type 0 where
    unlisted : {e : Error} {v : W} → c.list_policies w ≡ (err e, v) → Applied w (err e) v
    applied :
        (policies : List Policy) (u : W) (last : Freezes W) {v : W}
        → c.list_policies w ≡ (ok policies, u)
        → Reach c select fuel (first_state (freeze_groups sort sort_numbers policies) u) last
        → last.running ≡ []
        → last.waiting ≡ []
        → v ≡ trigger_pending c (start_resumes c sort select fuel policies last.world)
        → Applied w (ok tt) v

  -- A run of the runnable, over the wait for the cache and the write of the flag `startupComplete`. The
  -- first listing of the nodes is only logged, as is an error of the startup policies.
  pub data Ran (wait_for_cache_sync : W → Bool × W) (mark_startup_complete : W → W) (w : W)
      : W → Type 0 where
    unsynced :
        {v : W}
        → wait_for_cache_sync w ≡ (false, v)
        → Ran wait_for_cache_sync mark_startup_complete w v
    left :
        {u v : W}
        → wait_for_cache_sync w ≡ (true, u)
        → poll_nodes c fuel (c.list_nodes_uncached u).1 ≡ some (gone, v)
        → Ran wait_for_cache_sync mark_startup_complete w v
    completed :
        {u x y : W} (polled : Polled) (result : Result (Unit {0}))
        → wait_for_cache_sync w ≡ (true, u)
        → poll_nodes c fuel (c.list_nodes_uncached u).1 ≡ some (polled, x)
        → polled ≢ gone
        → Applied x result y
        → Ran wait_for_cache_sync mark_startup_complete w (mark_startup_complete y)

-- ===== src/Startup/Run/Outcomes.antt =====
-- What a startup does in the end.
use app_lifecycle_kubernetes.Base.{
  ℕ, Bool, true, false, String, List, ok, ◌≡◌, refl, arith, In, Option, some, none,
}
use app_lifecycle_kubernetes.Types.{Policy}
use app_lifecycle_kubernetes.Client.{Client}
use app_lifecycle_kubernetes.Startup.{Sort}
use app_lifecycle_kubernetes.Nodes.Wait.{NodeSelect}
use app_lifecycle_kubernetes.Startup.Resumes.{start_resumes}
use app_lifecycle_kubernetes.Startup.Groups.{
  freeze_policies, freeze_groups, Freezes, Reach, first_state,
}
use app_lifecycle_kubernetes.Startup.Groups.Held.{Sorts}
use app_lifecycle_kubernetes.Startup.Groups.Order.{all_ended}
use app_lifecycle_kubernetes.Startup.Run.{with_trigger, trigger_pending, Applied, applied}
use app_lifecycle_kubernetes.Reconcile.Parts.{is_newer}
use app_lifecycle_kubernetes.Watches.{reconciles_update, is_raised, is_reset}

-- Where the startup policies were applied from the world `u`, the resumes were marked in a world that
-- some schedule of the startup freezes, begun in `u`, left with every policy that is to be frozen done.
abbrev pub ResumedLast :
    {W : Type 0} → Client W → NodeSelect W → ℕ → Sort Policy → Sort ℕ → List Policy → W → W → Type 0
ResumedLast {W = W} c select fuel sort sort_numbers policies u v =
    (last : Freezes W) × Reach c select fuel
      (first_state (freeze_groups sort sort_numbers policies) u) last
    × ((q : Policy) → In q (freeze_policies policies) → In q last.ended)
    × (v ≡ trigger_pending c (start_resumes c sort select fuel policies last.world))

-- Once the startup policies are applied without an error, the resumes were marked at the end of a
-- schedule of the startup freezes in which every policy that is to be frozen at startup was done,
-- where sorting keeps the elements and sorts the numbers.
pub Applied-ResumedLast :
    {W : Type 0} (c : Client W) (select : NodeSelect W) (fuel : ℕ) (sort : Sort Policy)
    (sort_numbers : Sort ℕ) (w v : W)
    → Sorts sort sort_numbers
    → Applied c select fuel sort sort_numbers w (ok tt) v
    → (policies : List Policy) × (u : W) × (c.list_policies w ≡ (ok policies, u))
      × ResumedLast c select fuel sort sort_numbers policies u v
Applied-ResumedLast c select fuel sort sort_numbers w v sorts
      (applied policies u last listed reach idle empty e) =
    (
      policies,
      u,
      listed,
      (last, reach, all_ended c select fuel policies u last sorts reach idle empty, e),
    )

never_reset : (t : Option ℕ) → is_reset t t ≡ false
never_reset none = refl
never_reset (some n) = ground arith

never_newer : (t : Option ℕ) → is_newer t t ≡ false
never_newer none = refl
never_newer (some n) = ground arith

never_raised : (flag : Bool) (t : Option ℕ) → is_raised flag t flag t ≡ false
never_raised true t = rw (never_reset t)
never_raised false t = refl

-- The annotation that the startup sets on a policy whose pre-conditions are being checked does not make
-- the policy reconciled, since it changes neither the generation nor the status.
pub trigger_is_ignored :
    (generation : ℕ) (time : String) (p : Policy)
    → reconciles_update generation generation p (with_trigger time p) ≡ false
unfolding reconciles_update with_trigger
trigger_is_ignored generation time p = ground (
  arith,
  never_raised p.status.pending_freeze p.status.freeze_delay_started_at,
  never_raised p.status.pending_startup_resume p.status.resume_delay_started_at,
  never_newer p.status.node_ready_event_detected_at,
  never_newer p.status.node_failure_event_detected_at,
)

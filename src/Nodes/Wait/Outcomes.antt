-- ===== src/Nodes/Wait/Outcomes.antt =====
-- How the wait for worker nodes ends.
use app_lifecycle_kubernetes.Base.{
  ℕ, zero, suc, ◌≤◌, String, true, Option, none, some, Result, ok, err, ◌≡◌, ◌≢◌, refl, subst,
  arith, Bool-cases, ◌⊎◌, inl, inr,
}
use app_lifecycle_kubernetes.Base.Dict.{Dict}
use app_lifecycle_kubernetes.Types.{StartupNodeReadinessPolicy}
use app_lifecycle_kubernetes.Client.{Client}
use app_lifecycle_kubernetes.Nodes.{count_ready_worker_nodes}
use app_lifecycle_kubernetes.Nodes.Wait.{
  WaitEvent, done, timed_out, ticked, least_nodes, counted_at, is_enough, wait_nodes_loop,
  wait_for_nodes_ready, NodeSelect, wait_timeout,
}

pub Event-cases : (e : WaitEvent) → (e ≡ done) ⊎ ((e ≡ timed_out) ⊎ (e ≡ ticked))
Event-cases done = inl refl
Event-cases timed_out = inr (inl refl)
Event-cases ticked = inr (inr refl)

module _ {W : Type 0} (c : Client W) (select : W → WaitEvent × W) (selector : Dict String)
    (least start : ℕ) where
  abbrev Enough : Option ((Result ℕ × ℕ) × W) → Type 0
  Enough none = Unit {0}
  Enough (some ((err e, seconds), u)) = Unit {0}
  Enough (some ((ok n, seconds), u)) = least ≤ n

  counted_at-Enough :
      (r : Result ℕ) (w : W) → is_enough least r ≡ true → Enough (some (counted_at c start r w))
  unfolding counted_at
  counted_at-Enough (err e) w h = tt
  counted_at-Enough (ok n) w h = ground (arith, h)

  wait_nodes_loop-Enough :
      (fuel : ℕ) (w : W)
      → ((w : W) → (select w).0 ≢ timed_out)
      → Enough (wait_nodes_loop c select selector least start fuel w)
  unfolding wait_nodes_loop
  wait_nodes_loop-Enough zero w never = tt
  wait_nodes_loop-Enough (suc fuel) w never =
      let (event, w₁) = select w in
      let (count, w₂) = count_ready_worker_nodes c selector w₁ in
      elim (Event-cases event) [
        | inl d ↦ rw (d, Enough, wait_nodes_loop) tt
        | inr (inl o) ↦ elim (never w o) [ ]
        | inr (inr t) ↦ elim (Bool-cases (is_enough least count)) [
          | inl y ↦ rw (t, y, Enough, wait_nodes_loop) (counted_at-Enough count w₂ y)
          | inr n ↦ rw (t, n, Enough, wait_nodes_loop) (wait_nodes_loop-Enough fuel w₂ never)
        ]
      ]

-- As long as the timer does not fire, the wait answers only with at least as many ready nodes as the
-- policy asks for: all that match where it asks for all, and the configured number otherwise.
pub wait_for_nodes_ready-least :
    {W : Type 0} (c : Client W) (select : NodeSelect W) (policy : StartupNodeReadinessPolicy)
    (fuel : ℕ) (w u : W) (nodes seconds : ℕ)
    → ((v : W) → (select 2 (wait_timeout policy) v).0 ≢ timed_out)
    → wait_for_nodes_ready c select policy fuel w ≡ some ((ok nodes, seconds), u)
    → (least_nodes c policy w).0 ≤ nodes
unfolding wait_for_nodes_ready
wait_for_nodes_ready-least c select policy fuel w u nodes seconds never e =
    subst
      (Enough c (select 2 (wait_timeout policy)) policy.node_selector (least_nodes c policy w).0
        (c.now (least_nodes c policy w).1).0)
      e
      (wait_nodes_loop-Enough c (select 2 (wait_timeout policy)) policy.node_selector
        (least_nodes c policy w).0 (c.now (least_nodes c policy w).1).0 fuel
        (c.now (least_nodes c policy w).1).1 never)

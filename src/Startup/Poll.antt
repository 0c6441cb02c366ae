-- ===== src/Startup/Poll.antt =====
-- The poll of the nodes before the startup policies, in the runnable of `main` of cmd/main.go.
use app_lifecycle_kubernetes.Base.{
  ℕ, zero, suc, ◌+◌, ◌-◌, ◌*◌, ◌≤◌, ◌<◌, Bool, true, not, ◌||◌, Option, none, some, List, [], ◌∷◌,
  Result, ok, err, any, ltb, str_eq, ◌≡◌, refl, arith, ltb→lt, Bool-cases, Option-cases, inl, inr,
  if◌then◌else◌,
}
use app_lifecycle_kubernetes.Base.{String}
use app_lifecycle_kubernetes.Kube.{Node}
use app_lifecycle_kubernetes.Client.{Client}
use app_lifecycle_kubernetes.Reconcile.Parts.{seconds}
use app_lifecycle_kubernetes.Signals.{has_ready}

abbrev pub is_fault_taint : String → Bool
is_fault_taint key =
    str_eq key "node.kubernetes.io/unreachable" || str_eq key "node.kubernetes.io/not-ready"

-- The first Ready condition is not true, or a taint tells of a fault.
abbrev pub is_failing : Node → Bool
is_failing node = not (has_ready node.conditions) || any is_fault_taint node.taints

-- The first unhealthy node, where the nodes could be listed.
unfoldable pub first_unhealthy_node : List Node → Option Node
unfolding has_ready
first_unhealthy_node [] = none
first_unhealthy_node (node ∷ rest) =
    let later = first_unhealthy_node rest in if is_failing node then some node else later

unfoldable pub seen_unhealthy : Result (List Node) → Option Node
unfolding first_unhealthy_node
seen_unhealthy (err e) = none
seen_unhealthy (ok nodes) = first_unhealthy_node nodes

-- The startup goes on for an unhealthy node, or after the longest wait; it does not once the context
-- has ended.
pub data Polled : Type 0 where
  unhealthy : Node → Polled
  waited gone : Polled

abbrev pub max_scan_wait : ℕ
max_scan_wait = seconds 50

abbrev pub scan_interval : ℕ
scan_interval = seconds 10

-- The loop up to a deadline, on fuel.
unfoldable pub poll_loop : {W : Type 0} → Client W → (deadline fuel : ℕ) → W → Option (Polled × W)
unfolding seen_unhealthy
poll_loop c deadline zero w = none
poll_loop c deadline (suc fuel) w =
    let (nodes, w₁) = c.list_nodes_uncached w in
    let (now, w₂) = c.now w₁ in
    let (ticked, w₃) = c.tick scan_interval w₂ in
    let later = poll_loop c deadline fuel w₃ in
    elim (seen_unhealthy nodes) [
      | some node ↦ some (unhealthy node, w₁)
      | none ↦
          if ltb deadline now then some (waited, w₂) else if ticked then later else some (gone, w₃)
    ]

unfoldable pub poll_nodes : {W : Type 0} → Client W → ℕ → W → Option (Polled × W)
unfolding poll_loop
poll_nodes c fuel w = let (now, w₁) = c.now w in poll_loop c (now + max_scan_wait) fuel w₁

-- A clock that no call turns back, and that a wait moves on by its length unless the context ends.
pub record PollClock {W : Type 0} (c : Client W) : Type 0 where
  pub reads : W → ℕ
  pub now_reads : (w : W) → (c.now w).0 ≡ reads w
  pub now_keeps : (w : W) → reads w ≤ reads (c.now w).1
  pub nodes_keep : (w : W) → reads w ≤ reads (c.list_nodes_uncached w).1
  pub tick_moves : (n : ℕ) (w : W) → (c.tick n w).0 ≡ true → reads w + n ≤ reads (c.tick n w).1

-- What an end of the poll tells: the node was just listed and is unhealthy, or the time is over.
abbrev pub Told : {W : Type 0} → Client W → (W → ℕ) → ℕ → Polled × W → Type 0
Told {W = W} c reads deadline (unhealthy node, v) =
    (u : W) × (seen_unhealthy (c.list_nodes_uncached u).0 ≡ some node)
    × ((c.list_nodes_uncached u).1 ≡ v)
Told c reads deadline (waited, v) = deadline < reads v
Told c reads deadline (gone, v) = Unit {0}

module _ {W : Type 0} (c : Client W) (clock : PollClock c) where
  open clock use {reads}

  poll_loop_returns :
      (deadline fuel : ℕ) (w : W)
      → (suc deadline - reads w) + scan_interval ≤ fuel * scan_interval
      → (a : Polled × W) × (poll_loop c deadline fuel w ≡ some a) × Told c reads deadline a
  unfolding poll_loop
  poll_loop_returns deadline zero w h = absurd (omega arith)
  poll_loop_returns deadline (suc fuel) w h =
      let (nodes, w₁) = c.list_nodes_uncached w in
      let (now, w₂) = c.now w₁ in
      let (ticked, w₃) = c.tick scan_interval w₂ in
      elim (Option-cases (seen_unhealthy nodes)) [
        | inr (node, e) ↦ ((unhealthy node, w₁), rw (e, poll_loop) refl, (w, e, refl))
        | inl calm ↦ elim (Bool-cases (ltb deadline now)) [
          | inl over ↦ (
            (waited, w₂),
            rw (calm, over, poll_loop) refl,
            omega (arith, ltb→lt _ _ over, clock.now_reads w₁, clock.now_keeps w₁),
          )
          | inr early ↦ elim (Bool-cases ticked) [
            | inr ended ↦ ((gone, w₃), rw (calm, early, ended, poll_loop) refl, tt)
            | inl t ↦
                let (a, found, told) = poll_loop_returns deadline fuel w₃ (
                  ground (
                    arith,
                    clock.nodes_keep w,
                    clock.now_reads w₁,
                    clock.now_keeps w₁,
                    clock.tick_moves scan_interval w₂ t,
                  )) in
                (a, rw (calm, early, t, poll_loop) found, told)
          ]
        ]
      ]

-- The poll of the nodes returns, for which seven rounds of fuel are enough where the clock runs on: with
-- an unhealthy node that it has just listed, after more than 50 seconds, or with the context's end.
pub poll_nodes_returns :
    {W : Type 0} (c : Client W) (clock : PollClock c) (fuel : ℕ) (w : W)
    → 7 ≤ fuel
    → (a : Polled × W) × (poll_nodes c fuel w ≡ some a)
      × Told c clock.reads (clock.reads w + max_scan_wait) a
unfolding poll_nodes
poll_nodes_returns c clock fuel w h = rw (← clock.now_reads w) (
    poll_loop_returns c clock ((c.now w).0 + max_scan_wait) fuel (c.now w).1
      (omega (arith, h, clock.now_reads w, clock.now_keeps w)))

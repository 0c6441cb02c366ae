-- ===== src/Throttle/Wired/Steady/Waits.antt =====
-- The wait for ready nodes, by the calls that it makes.
use app_lifecycle_kubernetes.Base.{
  subst, ◌≡◌, ℕ, zero, suc, ◌-◌, ◌*◌, String, Bool, Option, none, some, ltb, Option-cases,
  Bool-cases, inl, inr,
}
use app_lifecycle_kubernetes.Types.{SignalType, AdaptiveThrottlingConfig}
use app_lifecycle_kubernetes.Client.{Client}
use app_lifecycle_kubernetes.Signals.{}
use app_lifecycle_kubernetes.Signals.Collect.{NodeMetricsCache, Scrape, collect_signals}
use app_lifecycle_kubernetes.Throttle.{second}
use app_lifecycle_kubernetes.Throttle.Clear.{
  max_wait_time, wait_interval, look, wait_loop, wait_for_signal_clear,
}
use app_lifecycle_kubernetes.Throttle.Wired.Steady.{Steady}
use app_lifecycle_kubernetes.Throttle.Wired.Steady.Checks.{collect_signals-Steps}

module _ {W : Type 0} {c : Client W} {scrape : Scrape W} {Goes : W → W → Type 0}
    (st : Steady c scrape Goes) where
  -- A wait that answers has kept to the relation.
  module _ (config : AdaptiveThrottlingConfig) (namespace : String) (type : SignalType)
      (start : ℕ) where
    abbrev Waited : W → Option (Bool × (NodeMetricsCache × W)) → Type 0
    Waited w none = Unit {0}
    Waited w (some (b, v)) = Goes w v.1

    Waited-onward :
        (w v : W) (r : Option (Bool × (NodeMetricsCache × W))) → Goes w v → Waited v r → Waited w r
    Waited-onward w v none h waited = tt
    Waited-onward w v (some (b, u)) h waited = st.onward w v u.1 h waited

    wait_loop-Waited :
        (fuel elapsed : ℕ) (v : NodeMetricsCache × W)
        → Waited v.1 (wait_loop c scrape config namespace type start fuel elapsed v)
    unfolding wait_loop
    wait_loop-Waited zero elapsed v = tt
    wait_loop-Waited (suc fuel) elapsed (cache, w) =
        let (ticked, w₁) = c.tick (wait_interval config * second) w in
        let (found, (cache₂, w₂)) = collect_signals c scrape (some config) namespace (cache, w₁) in
        let (now, w₃) = c.now w₂ in
        let looked : Goes w w₂ =
          st.onward w w₁ w₂ (st.tick_goes _ w)
            (collect_signals-Steps st config namespace (cache, w₁)) in
        elim (Bool-cases (ltb elapsed (max_wait_time config * second))) [
          | inr over ↦ rw over (st.stays w)
          | inl more ↦ elim (Bool-cases ticked) [
            | inr gone ↦ rw (more, gone) (st.tick_goes _ w)
            | inl t ↦ elim (Option-cases (look config type found)) [
              | inr (answer, l) ↦ rw (more, t, l) looked
              | inl l ↦
                  rw (more, t, l)
                    (Waited-onward w w₃ _ (st.onward w w₂ w₃ looked (st.now_goes w₂))
                      (wait_loop-Waited fuel (now - start) (cache₂, w₃)))
            ]
          ]
        ]

    Waited-some :
        (w : W) (r : Option (Bool × (NodeMetricsCache × W))) {b : Bool} {v : NodeMetricsCache × W}
        → Waited w r
        → r ≡ some (b, v)
        → Goes w v.1
    Waited-some w r waited e = subst (Waited w) e waited

    -- A wait that answers.
    pub wait_ready-Goes :
        (fuel : ℕ) (v u : NodeMetricsCache × W) (b : Bool)
        → wait_for_signal_clear c scrape config namespace type start fuel v ≡ some (b, u)
        → Goes v.1 u.1
    unfolding wait_for_signal_clear
    wait_ready-Goes fuel (cache, w) u b e =
        Waited-some w _
          (Waited-onward w (c.now w).1 _ (st.now_goes w)
            (wait_loop-Waited fuel _ (cache, (c.now w).1)))
          e

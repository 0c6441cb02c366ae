-- ===== src/Throttle/Clear/Ends.antt =====
-- The wait for a signal to clear ends.
use app_lifecycle_kubernetes.Base.{
  ℕ, zero, suc, ◌+◌, ◌-◌, ◌*◌, ◌≤◌, ◌<◌, String, Bool, true, false, Option, none, some, ◌≡◌, refl,
  subst, arith, ltb, Bool-cases, Option-cases, inl, inr, ltb→lt,
}
use app_lifecycle_kubernetes.Types.{SignalType, AdaptiveThrottlingConfig}
use app_lifecycle_kubernetes.Client.{Client}
use app_lifecycle_kubernetes.Throttle.{second}
use app_lifecycle_kubernetes.Throttle.Clear.{
  wait_interval, max_wait_time, look, wait_loop, wait_for_signal_clear,
}
use app_lifecycle_kubernetes.Throttle.Wired.Steady.{Ticking}
use app_lifecycle_kubernetes.Throttle.Wired.Steady.Checks.{collect_signals-Steps}
use app_lifecycle_kubernetes.Signals.Collect.{NodeMetricsCache, Scrape, collect_signals}

module _ {W : Type 0} (c : Client W) (scrape : Scrape W) (config : AdaptiveThrottlingConfig)
    (namespace : String) (clock : Ticking c scrape) (type : SignalType) (start : ℕ) where
  open clock use {reads}

  abbrev Answer : ℕ → ℕ → NodeMetricsCache × W → Type 0
  Answer fuel elapsed v =
      (a : Bool × (NodeMetricsCache × W)) × (wait_loop c scrape config namespace type start fuel
          elapsed v
        ≡ some a)

  -- Each turn takes one from the fuel, and moves the clock by at least one nanosecond; `last` is the time
  -- that was read last.
  wait_loop-Answer :
      (fuel last : ℕ) (v : NodeMetricsCache × W)
      → last ≤ reads v.1
      → start + max_wait_time config * second - last < fuel
      → Answer fuel (last - start) v
  unfolding wait_loop
  wait_loop-Answer zero last v e h = elim h [ ]
  wait_loop-Answer (suc fuel) last (cache, w) e h =
      let (ticked, w₁) = c.tick (wait_interval config * second) w in
      let (found, (cache₂, w₂)) = collect_signals c scrape (some config) namespace (cache, w₁) in
      let (now, w₃) = c.now w₂ in
      elim (Bool-cases (ltb (last - start) (max_wait_time config * second))) [
        | inr over ↦ ((false, (cache, w)), rw over refl)
        | inl more ↦ elim (Bool-cases ticked) [
          | inr gone ↦ ((false, (cache, w₁)), rw (more, gone) refl)
          | inl t ↦ elim (Option-cases (look config type found)) [
            | inr (answer, l) ↦ ((answer, (cache₂, w₂)), rw (more, t, l) refl)
            | inl l ↦
                let moved : last < now = omega (
                  arith,
                  clock.tick_moves _ w t,
                  collect_signals-Steps clock.steady config namespace (cache, w₁),
                  clock.now_reads w₂,
                ) in
                let (a, r) =
                  wait_loop-Answer fuel now (cache₂, w₃)
                    (omega (arith, clock.now_reads w₂, clock.steady.now_goes w₂))
                    (omega (arith, moved, ltb→lt _ _ more)) in
                (a, rw (more, t, l) r)
          ]
        ]
      ]

  abbrev Moved : ℕ → NodeMetricsCache × W → Option (Bool × (NodeMetricsCache × W)) → Type 0
  Moved elapsed v (some (true, u)) =
      (elapsed < max_wait_time config * second) × (reads v.1 < reads u.1)
  Moved elapsed v (some (false, u)) = Unit {0}
  Moved elapsed v none = Unit {0}

  Moved-later :
      (elapsed later : ℕ) (v u : NodeMetricsCache × W) (r : Option (Bool × (NodeMetricsCache × W)))
      → elapsed < max_wait_time config * second
      → reads v.1 ≤ reads u.1
      → Moved later u r
      → Moved elapsed v r
  Moved-later elapsed later v u (some (true, x)) e h moved = (e, omega (arith, h, moved.1))
  Moved-later elapsed later v u (some (false, x)) e h moved = tt
  Moved-later elapsed later v u none e h moved = tt

  Moved-now :
      (elapsed : ℕ) (v u : NodeMetricsCache × W) (answer : Bool)
      → elapsed < max_wait_time config * second
      → reads v.1 < reads u.1
      → Moved elapsed v (some (answer, u))
  Moved-now elapsed v u true e h = (e, h)
  Moved-now elapsed v u false e h = tt

  wait_loop-Moved :
      (fuel elapsed : ℕ) (v : NodeMetricsCache × W)
      → Moved elapsed v (wait_loop c scrape config namespace type start fuel elapsed v)
  unfolding wait_loop
  wait_loop-Moved zero elapsed v = tt
  wait_loop-Moved (suc fuel) elapsed (cache, w) =
      let (ticked, w₁) = c.tick (wait_interval config * second) w in
      let (found, (cache₂, w₂)) = collect_signals c scrape (some config) namespace (cache, w₁) in
      let (now, w₃) = c.now w₂ in
      elim (Bool-cases (ltb elapsed (max_wait_time config * second))) [
        | inr over ↦ rw over tt
        | inl more ↦ elim (Bool-cases ticked) [
          | inr gone ↦ rw (more, gone) tt
          | inl t ↦
              let ran : reads w < reads w₂ = omega (
                arith,
                clock.tick_moves _ w t,
                collect_signals-Steps clock.steady config namespace (cache, w₁),
              ) in
              elim (Option-cases (look config type found)) [
                | inr (answer, l) ↦
                    rw (more, t, l)
                      (Moved-now elapsed (cache, w) (cache₂, w₂) answer (ltb→lt _ _ more) ran)
                | inl l ↦
                    rw (more, t, l)
                      (Moved-later elapsed (now - start) (cache, w) (cache₂, w₃) _ (ltb→lt _ _ more)
                        (omega (arith, ran, clock.steady.now_goes w₂))
                        (wait_loop-Moved fuel (now - start) (cache₂, w₃)))
              ]
        ]
      ]

  -- A wait that ends well began within the limit, and took time.
  pub wait_for_signal_clear-Moved :
      (fuel : ℕ) (v u : NodeMetricsCache × W)
      → wait_for_signal_clear c scrape config namespace type start fuel v ≡ some (true, u)
      → (reads v.1 - start < max_wait_time config * second) × (reads v.1 < reads u.1)
  unfolding wait_for_signal_clear
  wait_for_signal_clear-Moved fuel (cache, w) u e =
      let moved : Moved ((c.now w).0 - start) (cache, (c.now w).1) (some (true, u)) =
        subst (Moved ((c.now w).0 - start) (cache, (c.now w).1)) e (wait_loop-Moved fuel _ _) in
      (omega (arith, moved.0, clock.now_reads w), omega (arith, moved.1, clock.steady.now_goes w))

-- The wait returns on fuel above what is left, in nanoseconds, of the longest wait since `start`.
pub wait_for_signal_clear_answers :
    {W : Type 0} (c : Client W) (scrape : Scrape W) (config : AdaptiveThrottlingConfig)
    (namespace : String) (clock : Ticking c scrape) (type : SignalType) (start fuel : ℕ)
    (v : NodeMetricsCache × W)
    → start + max_wait_time config * second - clock.reads v.1 < fuel
    → (a : Bool × (NodeMetricsCache × W)) × (wait_for_signal_clear c scrape config namespace type
          start fuel v
        ≡ some a)
unfolding wait_for_signal_clear
wait_for_signal_clear_answers c scrape config namespace clock type start fuel (cache, w) h =
    wait_loop-Answer c scrape config namespace clock type start fuel (c.now w).0
      (cache, (c.now w).1) (omega (arith, clock.now_reads w, clock.steady.now_goes w))
      (omega (arith, clock.now_reads w))

-- The wait returns: where the clock runs, fuel above the longest wait in nanoseconds is enough, however
-- long the signal lasts.
pub wait_for_signal_clear_returns :
    {W : Type 0} (c : Client W) (scrape : Scrape W) (config : AdaptiveThrottlingConfig)
    (namespace : String) (clock : Ticking c scrape) (type : SignalType) (start fuel : ℕ)
    (v : NodeMetricsCache × W)
    → start ≤ clock.reads v.1
    → max_wait_time config * second < fuel
    → (a : Bool × (NodeMetricsCache × W)) × (wait_for_signal_clear c scrape config namespace type
          start fuel v
        ≡ some a)
wait_for_signal_clear_returns c scrape config namespace clock type start fuel v h f =
    wait_for_signal_clear_answers c scrape config namespace clock type start fuel v (omega arith)

-- ===== src/Throttle/Resume/Ends.antt =====
-- The loop ends, and what it has done by then.
use mathlib.Core.Option
use app_lifecycle_kubernetes.Base.{
  ℕ, zero, suc, ◌+◌, ◌-◌, ◌≤◌, ◌<◌, Bool, true, false, Option, none, some, List, [], ◌∷◌, Result,
  ok, err, Error, ltb, take, length, ◌≡◌, refl, sym, arith, Bool-cases, inl, inr, ltb→lt, ◌==◌,
  subst, take_all,
}
use app_lifecycle_kubernetes.Types.{Signal, node_not_ready, AdaptiveThrottlingConfig}
use app_lifecycle_kubernetes.Throttle.{has_signal}
use app_lifecycle_kubernetes.Throttle.Batch.{calculate_batch_size-pos, default-pos}
use app_lifecycle_kubernetes.Throttle.Resume.{
  WorkloadItem, Services, Outcome, stop, next, LoopState, after_wait, act_on, go_on,
  without_signals, with_signals, round, rounds, says_abort, start, returned,
  resume_with_adaptive_throttling,
}
use app_lifecycle_kubernetes.Throttle.Resume.Tally.{Tally}
use app_lifecycle_kubernetes.Throttle.Resume.Tally.Rounds.{LoopDone, LoopEnds, rounds-LoopEnds}
use app_lifecycle_kubernetes.Throttle.Resume.Trace.{Trace, begun, Stopped, unharmed, trace_tally}
use app_lifecycle_kubernetes.Throttle.Resume.Advance.{Patience, RoundMoves, run_batch-Moves}

module _ {W : Type 0} (sv : Services W) (q : Patience sv) (config : AdaptiveThrottlingConfig)
    (workloads : List WorkloadItem) where
  open q use {left}

  -- The loop's test holds, the batch size is positive, and at most `before` is left to do.
  record Ready (before : ℕ) (p : LoopState) (w : W) : Type 0 where
    more : p.resumed < length workloads
    sized : 0 < p.batch_size
    bounded : left w + (length workloads - p.resumed) ≤ before
    patient : before < q.limit

  after_wait-RoundMoves :
      (before : ℕ) (p : LoopState) (w : W) (a : Bool × W)
      → sv.wait_ready w ≡ some a
      → left w + (length workloads - p.resumed) ≤ before
      → 0 < p.batch_size
      → RoundMoves sv q config workloads before (after_wait sv config workloads (some a) p)
  unfolding after_wait
  after_wait-RoundMoves before p w (true, u) e h s = (omega (arith, q.wait_takes w u e), s)
  after_wait-RoundMoves before p w (false, u) e h s = tt

  act_on-RoundMoves :
      (signals : List Signal) (before : ℕ) (p : LoopState) (w : W)
      → Ready before p w
      → RoundMoves sv q config workloads before (act_on sv config workloads signals p w)
  unfolding act_on
  act_on-RoundMoves signals before p w r = elim (Bool-cases (has_signal signals node_not_ready)) [
    | inl paused ↦
        let w₁ =
          sv.report p.resumed (length workloads) p.batch_size signals
            "Paused - waiting for nodes to become ready" w in
        let (a, answered) =
          q.wait_answers w₁ (omega (arith, q.report_keeps _ _ _ _ _ w, r.bounded, r.patient)) in
        rw (paused, answered)
          (after_wait-RoundMoves before p w₁ a answered
            (omega (arith, q.report_keeps _ _ _ _ _ w, r.bounded)) r.sized)
    | inr clear ↦ rw clear (
        run_batch-Moves sv q config workloads signals p.resumed _ before _ w refl
          (calculate_batch_size-pos signals config p.batch_size r.sized) r.more r.bounded)
  ]

  go_on-RoundMoves :
      (gone : Option Error) (signals : List Signal) (before : ℕ) (p : LoopState) (w : W)
      → Ready before p w
      → RoundMoves sv q config workloads before (go_on sv config workloads gone signals p w)
  unfolding go_on
  go_on-RoundMoves (some e) signals before p w r = tt
  go_on-RoundMoves none signals before p w r = act_on-RoundMoves signals before p w r

  with_signals-RoundMoves :
      (collected : Result (List Signal)) (ended : Option Error) (before : ℕ) (p : LoopState) (w : W)
      → sv.context_error w ≡ ended
      → Ready before p w
      → RoundMoves sv q config workloads before (with_signals sv config workloads collected p w)
  unfolding with_signals without_signals
  with_signals-RoundMoves (ok signals) ended before p w e r =
      go_on-RoundMoves _ signals before p w r
  with_signals-RoundMoves (err x) (some g) before p w e r = rw (e, without_signals) tt
  with_signals-RoundMoves (err x) none before p w e r =
      elim (Bool-cases config.fallback_on_metrics_unavailable) [
        | inl fallback ↦ simp (e, fallback) (go_on-RoundMoves none [] before p w r)
        | inr fail ↦ simp (e, fail) tt
      ]

  round-RoundMoves :
      (before : ℕ) (p : LoopState) (w : W)
      → Ready before p w
      → RoundMoves sv q config workloads before (round sv config workloads p w)
  unfolding round
  round-RoundMoves before p w r = elim (Bool-cases (says_abort (sv.override w).0)) [
    | inl abort ↦ rw abort tt
    | inr continues ↦ rw continues (
        with_signals-RoundMoves _ _ before p _ refl (record {
          more = r.more;
          sized = r.sized;
          bounded = omega (arith, r.bounded, q.override_keeps w, q.collect_keeps (sv.override w).1);
          patient = r.patient;
        }))
  ]

  abbrev Answers : Option (Outcome LoopState × W) → Type 0
  Answers r = (a : Outcome LoopState × W) × (r ≡ some a)

  rounds-Answers :
      (fuel : ℕ) (p : LoopState) (w : W)
      → 0 < p.batch_size
      → left w + (length workloads - p.resumed) < fuel
      → fuel ≤ q.limit
      → Answers (rounds sv config workloads fuel p w)
  unfolding rounds
  rounds-Answers zero p w s h l = elim h [ ]
  rounds-Answers (suc fuel) p w s h l = elim (Bool-cases (ltb p.resumed (length workloads))) [
    | inl more ↦
        rw (more, rounds)
          (after (round sv config workloads p w)
            (round-RoundMoves fuel p w (record {
              more = ltb→lt _ _ more;
              sized = s;
              bounded = omega arith;
              patient = omega arith;
            }))
            (λ p₁ w₁ s₁ h₁. rounds-Answers fuel p₁ w₁ s₁ h₁ (omega arith)))
    | inr all ↦ ((next p, w), rw (all, rounds))
  ]
    where
      after :
          (r : Option (Outcome LoopState × W))
          → RoundMoves sv q config workloads fuel r
          → ((p : LoopState) (w : W)
              → 0 < p.batch_size
              → left w + (length workloads - p.resumed) < fuel
              → Answers (rounds sv config workloads fuel p w))
          → Answers (elim r [
            | none ↦ none
            | some (stop e, u) ↦ some (stop e, u)
            | some (next p₁, u) ↦ rounds sv config workloads fuel p₁ u
          ])
      after none moved again = elim moved [ ]
      after (some (stop e, u)) moved again = ((stop e, u), refl)
      after (some (next p₁, u)) moved again = again p₁ u moved.1 moved.0

-- Where only a bounded number of waits for ready nodes can succeed, and the waits answer, the loop ends:
-- with fuel above that number and the number of workloads together, the function returns.
pub resume_returns :
    {W : Type 0} (sv : Services W) (q : Patience sv) (config : AdaptiveThrottlingConfig)
    (workloads : List WorkloadItem) (fuel : ℕ) (w : W)
    → q.left w + length workloads < fuel
    → fuel ≤ q.limit
    → (a : Result (Unit {0}) × W) × (resume_with_adaptive_throttling sv config workloads fuel w
        ≡ some a)
unfolding resume_with_adaptive_throttling
resume_returns sv q config workloads fuel w h l = elim (Bool-cases (length workloads == 0)) [
  | inl empty ↦ ((ok tt, w), rw empty)
  | inr full ↦
      let (a, e) =
        rounds-Answers sv q config workloads fuel (start sv config workloads) w
          (default-pos 3 config.initial_batch_size (omega arith)) (omega arith) l in
      (returned sv config workloads a, rw (full, e))
]

module _ {W : Type 0} (sv : Services W) (t : Tally sv) (config : AdaptiveThrottlingConfig)
    (workloads : List WorkloadItem) (fuel : ℕ) (w : W) where
  open t use {Held, Part}

  nothing_to_do : length workloads ≡ 0 → Held [] w → Held workloads w
  nothing_to_do e held = subst (λ xs. Held xs w) (sym (empty workloads e)) held
    where
      empty : (xs : List WorkloadItem) → length xs ≡ 0 → xs ≡ []
      empty [] h = refl
      empty (x ∷ xs) h = absurd (omega arith)

  -- What is held when the function returns: all of the workloads, or a first part at an error.
  abbrev Final : Result (Unit {0}) → W → Type 0
  Final (ok _) u = Held workloads u
  Final (err e) u = (k : ℕ) × Part (take k workloads) u

  abbrev Finally : Option (Result (Unit {0}) × W) → Type 0
  Finally none = Unit {0}
  Finally (some (r, u)) = Final r u

  returned-Final :
      (o : Outcome LoopState) (v : W)
      → LoopDone sv t config workloads o v
      → Final (returned sv config workloads (o, v)).0 (returned sv config workloads (o, v)).1
  unfolding returned
  returned-Final (stop e) v done = done
  returned-Final (next p) v done = t.complete_keeps _ _ _ v done

  map-Finally :
      (m : Option (Outcome LoopState × W))
      → LoopEnds sv t config workloads m
      → Finally (Option.map (returned sv config workloads) m)
  map-Finally none done = tt
  map-Finally (some (o, v)) done = returned-Final o v done

  resume-Finally : Held [] w → Finally (resume_with_adaptive_throttling sv config workloads fuel w)
  unfolding resume_with_adaptive_throttling
  resume-Finally held = elim (Bool-cases (length workloads == 0)) [
    | inl empty ↦ rw (empty, Finally) (nothing_to_do (ground arith) held)
    | inr full ↦
        rw (full, Finally)
          (map-Finally (rounds sv config workloads fuel (start sv config workloads) w) (
            rounds-LoopEnds sv t config workloads fuel (start sv config workloads) w
              (omega arith, held)))
  ]

  pub resume_builds_all :
      {u : W}
      → Held [] w
      → resume_with_adaptive_throttling sv config workloads fuel w ≡ some (ok tt, u)
      → Held workloads u
  resume_builds_all held e = subst Finally e (resume-Finally held)

  resume-Final :
      {r : Result (Unit {0})} {u : W}
      → Held [] w
      → resume_with_adaptive_throttling sv config workloads fuel w ≡ some (r, u)
      → Final r u
  resume-Final held e = subst Finally e (resume-Finally held)

module _ {W : Type 0} (sv : Services W) (config : AdaptiveThrottlingConfig)
    (workloads : List WorkloadItem) (fuel : ℕ) (w : W) where
  -- When the function returns without an error, every workload of the list was resumed with success,
  -- each exactly once and in the order of the list, and nothing else was resumed: the calls from the
  -- first world to the last are these resumes and the loop's other calls.
  pub resume_all_logged :
      {u : W}
      → resume_with_adaptive_throttling sv config workloads fuel w ≡ some (ok tt, u)
      → Trace sv w workloads u
  unfolding trace_tally
  resume_all_logged e = resume_builds_all sv (trace_tally sv w) config workloads fuel w begun e

  -- However the function returns, a first part of the list was resumed with success, each workload of it
  -- once and in order, and nothing else was, where a resume that fails is the last call of all.
  pub resume_part_logged :
      {r : Result (Unit {0})} {u : W}
      → resume_with_adaptive_throttling sv config workloads fuel w ≡ some (r, u)
      → (k : ℕ) × Stopped sv w (take k workloads) u
  unfolding trace_tally
  resume_part_logged {r} {u} e =
      part r (resume-Final sv (trace_tally sv w) config workloads fuel w begun e)
    where
      part :
          (r : Result (Unit {0}))
          → Final sv (trace_tally sv w) config workloads fuel w r u
          → (k : ℕ) × Stopped sv w (take k workloads) u
      part (err x) done = done
      part (ok _) done = (
        length workloads,
        unharmed (
            subst (λ xs. Trace sv w xs u)
              (sym (take_all (length workloads) workloads (omega arith))) done),
      )

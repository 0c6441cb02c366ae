-- ===== src/Throttle/Resume/Tally/Rounds.antt =====
-- The rounds of the loop, over a tally of the resumes.
use app_lifecycle_kubernetes.Base.{
  ℕ, zero, suc, ◌+◌, ◌-◌, ◌≤◌, min, Bool, true, false, Option, none, some, List, [], ◌++◌, Result,
  ok, err, Error, message, ltb, take, drop, length, ◌≡◌, refl, subst, sym, ap, ◌∙◌, arith,
  Bool-cases, inl, inr, take-append-take, take-take, take_all, length-take, length-drop,
  if◌then◌else◌, ltb-false→le,
}
use app_lifecycle_kubernetes.Types.{Signal, node_not_ready, AdaptiveThrottlingConfig}
use app_lifecycle_kubernetes.Throttle.{has_signal}
use app_lifecycle_kubernetes.Throttle.Resume.{
  WorkloadItem, Services, Outcome, stop, next, LoopState, pause, run_batch, after_wait, act_on,
  go_on, without_signals, with_signals, round, rounds, says_abort, aborted,
}
use app_lifecycle_kubernetes.Throttle.Resume.Tally.{Tally, BatchDone, process_batch-BatchDone}

module _ {W : Type 0} (sv : Services W) (t : Tally sv) where
  open t use {Held, Part}

  module _ (config : AdaptiveThrottlingConfig) (workloads : List WorkloadItem) where
    -- The first workloads are held, as many as the state says.
    abbrev pub At : LoopState → W → Type 0
    At p w = (p.resumed ≤ length workloads) × Held (take p.resumed workloads) w

    -- After a round: again a first part of the workloads is held, as many as the state says if the loop
    -- goes on.
    abbrev RoundDone : Outcome LoopState → W → Type 0
    RoundDone (next p) u = At p u
    RoundDone (stop e) u = (k : ℕ) × Part (take k workloads) u

    -- The loop stops with what was resumed before the round.
    stopped : (e : Error) (p : LoopState) (w : W) → At p w → RoundDone (stop e) w
    stopped e p w (h, held) = (p.resumed, t.to_part _ w held)

    maybe_sleep-Held :
        (b : Bool) (n : ℕ) (xs : List WorkloadItem) (u : W)
        → Held xs u
        → Held xs (if b then sv.sleep n u else u)
    maybe_sleep-Held true n xs u held = t.sleep_keeps n xs u held
    maybe_sleep-Held false n xs u held = held

    -- The workloads up to `r`, and a first part of the slice that follows, are a first part.
    extended :
        (r k : ℕ) (batch : List WorkloadItem)
        → batch ≡ take (length batch) (drop r workloads)
        → take r workloads ++ take k batch ≡ take (r + min k (length batch)) workloads
    extended r k batch slice =
        ap (λ b. take r workloads ++ b)
          (ap (take k) slice ∙ take-take k (length batch) (drop r workloads))
        ∙ take-append-take r (min k (length batch)) workloads

    pause-RoundDone :
        (signals : List Signal) (batch : List WorkloadItem) (r size : ℕ) (o : Outcome ℕ) (u : W)
        → batch ≡ take (length batch) (drop r workloads)
        → r + length batch ≤ length workloads
        → BatchDone sv t (take r workloads) batch r o u
        → RoundDone
            (pause sv config workloads signals o size u).0
            (pause sv config workloads signals o size u).1
    unfolding pause
    pause-RoundDone signals batch r size (next m) u slice fits (count, held) = (
      omega arith,
      maybe_sleep-Held (ltb m (length workloads)) _ (take m workloads) u (
          subst (λ xs. Held xs u)
            (ap (λ b. take r workloads ++ b) slice
              ∙ take-append-take r (length batch) workloads
              ∙ ap (λ n. take n workloads) (sym count))
            held),
    )
    pause-RoundDone signals batch r size (stop e) u slice fits (k, part) =
        (r + min k (length batch), subst (λ xs. Part xs u) (extended r k batch slice) part)

    slice_lem :
        (r n : ℕ)
        → take n (drop r workloads) ≡ take (length (take n (drop r workloads))) (drop r workloads)
    slice_lem r n = sym (
        ap (λ t. take t (drop r workloads)) (length-take n (drop r workloads))
        ∙ sym (take-take n (length (drop r workloads)) (drop r workloads))
        ∙ ap (take n) (take_all (length (drop r workloads)) (drop r workloads) (omega arith)))

    slice_fits :
        (r n : ℕ) → r ≤ length workloads → r + length (take n (drop r workloads)) ≤ length workloads
    slice_fits r n h = omega (arith, length-take n (drop r workloads), length-drop r workloads)

    run_batch-RoundDone :
        (signals : List Signal) (r size : ℕ) (end : Option ℕ) (w : W)
        → r ≤ length workloads
        → Held (take r workloads) w
        → RoundDone
            (run_batch sv config workloads signals r size end w).0
            (run_batch sv config workloads signals r size end w).1
    unfolding run_batch
    run_batch-RoundDone signals r size none w h held = (r, t.to_part _ w held)
    run_batch-RoundDone signals r size (some end) w h held =
        pause-RoundDone signals (take (end - r) (drop r workloads)) r size _ _
          (slice_lem r (end - r)) (slice_fits r (end - r) h)
          (process_batch-BatchDone sv t (take r workloads) (take (end - r) (drop r workloads)) r _
            (t.report_keeps _ _ _ _ _ _ w held))

    -- A round that runs out of fuel tells nothing.
    abbrev RoundRuns : Option (Outcome LoopState × W) → Type 0
    RoundRuns none = Unit {0}
    RoundRuns (some (o, u)) = RoundDone o u

    after_wait-RoundRuns :
        (waited : Option (Bool × W)) (p : LoopState) (w : W)
        → sv.wait_ready w ≡ waited
        → At p w
        → RoundRuns (after_wait sv config workloads waited p)
    unfolding after_wait
    after_wait-RoundRuns none p w e at = tt
    after_wait-RoundRuns (some (true, u)) p w e (h, held) = (h, t.wait_keeps _ w u true e held)
    after_wait-RoundRuns (some (false, u)) p w e (h, held) =
        stopped (message "") p u (h, t.wait_keeps _ w u false e held)

    act_on-RoundRuns :
        (signals : List Signal) (p : LoopState) (w : W)
        → At p w
        → RoundRuns (act_on sv config workloads signals p w)
    unfolding act_on
    act_on-RoundRuns signals p w (h, held) = elim (Bool-cases (has_signal signals node_not_ready)) [
      | inl paused ↦
          rw paused (after_wait-RoundRuns _ p _ refl (h, t.report_keeps _ _ _ _ _ _ w held))
      | inr clear ↦ rw clear (run_batch-RoundDone signals p.resumed _ _ w h held)
    ]

    go_on-RoundRuns :
        (gone : Option Error) (signals : List Signal) (p : LoopState) (w : W)
        → At p w
        → RoundRuns (go_on sv config workloads gone signals p w)
    unfolding go_on
    go_on-RoundRuns (some e) signals p w at = stopped e p w at
    go_on-RoundRuns none signals p w at = act_on-RoundRuns signals p w at

    without_signals-RoundRuns :
        (gone : Option Error) (e : Error) (p : LoopState) (w : W)
        → At p w
        → RoundRuns (without_signals sv config workloads gone e p w)
    unfolding without_signals
    without_signals-RoundRuns (some g) e p w at = stopped g p w at
    without_signals-RoundRuns none e p w at =
        elim (Bool-cases config.fallback_on_metrics_unavailable) [
          | inl fallback ↦ simp fallback (go_on-RoundRuns (sv.context_error w) [] p w at)
          | inr fail ↦ simp fail (stopped e p w at)
        ]

    with_signals-RoundRuns :
        (collected : Result (List Signal)) (p : LoopState) (w : W)
        → At p w
        → RoundRuns (with_signals sv config workloads collected p w)
    unfolding with_signals
    with_signals-RoundRuns (ok signals) p w at = go_on-RoundRuns _ signals p w at
    with_signals-RoundRuns (err e) p w at = without_signals-RoundRuns _ e p w at

    round-RoundRuns : (p : LoopState) (w : W) → At p w → RoundRuns (round sv config workloads p w)
    unfolding round
    round-RoundRuns p w (h, held) =
        let before = t.override_keeps _ w held in
        elim (Bool-cases (says_abort (sv.override w).0)) [
          | inl abort ↦ rw abort (stopped aborted p _ (h, before))
          | inr continues ↦
              rw continues (with_signals-RoundRuns _ p _ (h, t.collect_keeps _ _ before))
        ]

    -- The end of the loop: at its test, all is held; at an error, a first part.
    abbrev pub LoopDone : Outcome LoopState → W → Type 0
    LoopDone (next p) u = Held workloads u
    LoopDone (stop e) u = (k : ℕ) × Part (take k workloads) u

    abbrev pub LoopEnds : Option (Outcome LoopState × W) → Type 0
    LoopEnds none = Unit {0}
    LoopEnds (some (o, u)) = LoopDone o u

    pub rounds-LoopEnds :
        (fuel : ℕ) (p : LoopState) (w : W) → At p w → LoopEnds (rounds sv config workloads fuel p w)
    unfolding rounds
    rounds-LoopEnds zero p w at = tt
    rounds-LoopEnds (suc fuel) p w (h, held) =
        elim (Bool-cases (ltb p.resumed (length workloads))) [
          | inl more ↦
              rw (more, LoopEnds)
                (after (round sv config workloads p w) (round-RoundRuns p w (h, held))
                  (rounds-LoopEnds fuel))
          | inr all ↦
              rw (all, LoopEnds)
                (subst (λ xs. Held xs w) (take_all p.resumed workloads (ltb-false→le _ _ all)) held)
        ]
      where
        after :
            (r : Option (Outcome LoopState × W))
            → RoundRuns r
            → ((p : LoopState) (w : W) → At p w → LoopEnds (rounds sv config workloads fuel p w))
            → LoopEnds (elim r [
              | none ↦ none
              | some (stop e, u) ↦ some (stop e, u)
              | some (next p₁, u) ↦ rounds sv config workloads fuel p₁ u
            ])
        after none done again = tt
        after (some (stop e, u)) done again = done
        after (some (next p₁, u)) done again = again p₁ u done

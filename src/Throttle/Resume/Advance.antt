-- ===== src/Throttle/Resume/Advance.antt =====
-- Every round that does not pause moves on, and the loop ends.
use app_lifecycle_kubernetes.Base.{
  ℕ, suc, ◌+◌, ◌-◌, ◌≤◌, ◌<◌, Bool, true, false, Option, none, some, List, [], ◌∷◌, ltb, take, drop,
  length, ◌≡◌, arith, Bool-cases, inl, inr, String, length-take, length-drop, Result-cases,
  if◌then◌else◌,
}
use app_lifecycle_kubernetes.Types.{Signal, AdaptiveThrottlingConfig}
use app_lifecycle_kubernetes.Throttle.Resume.{
  WorkloadItem, Services, resume_item, Outcome, stop, next, process_batch, batch_end, LoopState,
  pause, run_batch, says_abort,
}

-- How often the wait for ready nodes can still succeed: no call adds to it, and each success takes one.
-- Below a limit the wait answers.
pub record Patience {W : Type 0} (sv : Services W) : Type 0 where
  pub left : W → ℕ
  pub override_keeps : (w : W) → left (sv.override w).1 ≤ left w
  pub collect_keeps : (w : W) → left (sv.collect w).1 ≤ left w
  pub report_keeps :
      (resumed total size : ℕ) (signals : List Signal) (text : String) (w : W)
      → left (sv.report resumed total size signals text w) ≤ left w
  pub sleep_keeps : (n : ℕ) (w : W) → left (sv.sleep n w) ≤ left w
  pub resume_keeps : (item : WorkloadItem) (w : W) → left (resume_item sv item w).1 ≤ left w
  pub limit : ℕ
  pub wait_answers : (w : W) → left w < limit → (a : Bool × W) × (sv.wait_ready w ≡ some a)
  pub wait_takes : (w u : W) → sv.wait_ready w ≡ some (true, u) → left u < left w

module _ {W : Type 0} (sv : Services W) (q : Patience sv) where
  open q use {left}

  abbrev BatchMoves : List WorkloadItem → ℕ → W → Outcome ℕ → W → Type 0
  BatchMoves items n w (next m) u = (m ≡ n + length items) × (left u ≤ left w)
  BatchMoves items n w (stop e) u = Unit {0}

  BatchMoves-cons :
      (item : WorkloadItem) (items : List WorkloadItem) (n : ℕ) (w v : W) (o : Outcome ℕ) (u : W)
      → left v ≤ left w
      → BatchMoves items (suc n) v o u
      → BatchMoves (item ∷ items) n w o u
  BatchMoves-cons item items n w v (next m) u h moved =
      (omega (arith, moved.0), omega (arith, moved.1))
  BatchMoves-cons item items n w v (stop e) u h moved = tt

  process_batch-BatchMoves :
      (items : List WorkloadItem) (n : ℕ) (w : W)
      → BatchMoves items n w (process_batch sv items n w).0 (process_batch sv items n w).1
  unfolding process_batch
  process_batch-BatchMoves [] n w = (omega arith, omega arith)
  process_batch-BatchMoves (item ∷ items) n w =
      let (abort, w₁) = sv.override w in
      let (done, w₂) = resume_item sv item w₁ in
      elim (Bool-cases (says_abort abort)) [
        | inl y ↦ rw y tt
        | inr n' ↦ elim (Result-cases done) [
          | inl (a, e) ↦
              rw (n', e)
                (BatchMoves-cons item items n w w₂ _ _
                  (omega (arith, q.override_keeps w, q.resume_keeps item w₁))
                  (process_batch-BatchMoves items (suc n) w₂))
          | inr (x, e) ↦ rw (n', e) tt
        ]
      ]

  module _ (config : AdaptiveThrottlingConfig) (workloads : List WorkloadItem) where
    -- What is left to do.
    abbrev pub work : LoopState → W → ℕ
    work p w = left w + (length workloads - p.resumed)

    -- If the loop goes on, less is left to do, and the batch size is still positive.
    abbrev pub Moves : ℕ → Outcome LoopState → W → Type 0
    Moves before (next p) u = (work p u < before) × (0 < p.batch_size)
    Moves before (stop e) u = Unit {0}

    -- The round answers, and so.
    abbrev pub RoundMoves : ℕ → Option (Outcome LoopState × W) → Type 0
    RoundMoves before none = ⊥
    RoundMoves before (some (o, u)) = Moves before o u

    maybe_sleep-left : (b : Bool) (n : ℕ) (u : W) → left (if b then sv.sleep n u else u) ≤ left u
    maybe_sleep-left true n u = q.sleep_keeps n u
    maybe_sleep-left false n u = omega arith

    pause-Moves :
        (signals : List Signal) (batch : List WorkloadItem) (r size before : ℕ) (w : W)
        (o : Outcome ℕ) (u : W)
        → 0 < length batch
        → 0 < size
        → r < length workloads
        → left w + (length workloads - r) ≤ before
        → BatchMoves batch r w o u
        → Moves before
            (pause sv config workloads signals o size u).0
            (pause sv config workloads signals o size u).1
    unfolding pause
    pause-Moves signals batch r size before w (next m) u h s more k (count, kept) =
        (omega (arith, maybe_sleep-left (ltb m (length workloads)) _ u), s)
    pause-Moves signals batch r size before w (stop e) u h s more k moved = tt

    batch_end-gt :
        (r size total : ℕ) {end : ℕ}
        → 0 < size
        → r < total
        → batch_end r size total ≡ some end
        → r < end
    unfolding batch_end
    batch_end-gt r size total s h e = ground arith

    pub run_batch-Moves :
        (signals : List Signal) (r size before : ℕ) (end : Option ℕ) (w : W)
        → batch_end r size (length workloads) ≡ end
        → 0 < size
        → r < length workloads
        → left w + (length workloads - r) ≤ before
        → Moves before
            (run_batch sv config workloads signals r size end w).0
            (run_batch sv config workloads signals r size end w).1
    unfolding run_batch
    run_batch-Moves signals r size before none w e s more k = tt
    run_batch-Moves signals r size before (some end) w e s more k =
        let batch = take (end - r) (drop r workloads) in
        pause-Moves signals batch r size before _ _ _
          (omega (
            arith,
            batch_end-gt r size (length workloads) s more e,
            length-take (end - r) (drop r workloads),
            length-drop r workloads,
          ))
          s more (omega (arith, q.report_keeps _ _ _ _ _ w)) (process_batch-BatchMoves batch r _)

-- ===== src/Throttle/Resume/Tally.antt =====
-- What a resume of each workload in turn builds up, carried through the loop.
pub mod Rounds
use app_lifecycle_kubernetes.Base.{
  ℕ, zero, suc, ◌+◌, ◌-◌, ◌≤◌, min, String, Bool, true, false, Option, none, some, List, [], ◌∷◌,
  ◌++◌, Result, ok, err, Error, message, ltb, take, drop, length, ◌≡◌, subst, sym, ap, ◌∙◌, arith,
  Bool-cases, inl, inr, take-append-take, take-take, take_all, length-take, length-drop,
  Result-cases, if◌then◌else◌, ltb-false→le,
}
use mathlib.Core.List.{append_assoc, append-nil}
use app_lifecycle_kubernetes.Types.{Signal, node_not_ready, AdaptiveThrottlingConfig}
use app_lifecycle_kubernetes.Throttle.{has_signal}
use app_lifecycle_kubernetes.Throttle.Resume.{
  WorkloadItem, Services, resume_item, Outcome, stop, next, process_batch, LoopState, pause,
  run_batch, after_wait, act_on, go_on, without_signals, with_signals, round, rounds, says_abort,
  aborted,
}

-- `Held xs` holds once the workloads `xs` were resumed, each with success and one after the other;
-- `Part xs` is what is left of it where the next resume fails.
pub record Tally {W : Type 0} (sv : Services W) : Type 1 where
  pub Held : List WorkloadItem → W → Type 0
  pub Part : List WorkloadItem → W → Type 0
  pub to_part : (xs : List WorkloadItem) (w : W) → Held xs w → Part xs w
  pub override_keeps : (xs : List WorkloadItem) (w : W) → Held xs w → Held xs (sv.override w).1
  pub collect_keeps : (xs : List WorkloadItem) (w : W) → Held xs w → Held xs (sv.collect w).1
  pub wait_keeps :
      (xs : List WorkloadItem) (w u : W) (b : Bool)
      → sv.wait_ready w ≡ some (b, u)
      → Held xs w
      → Held xs u
  pub report_keeps :
      (resumed total size : ℕ) (signals : List Signal) (text : String) (xs : List WorkloadItem)
      (w : W)
      → Held xs w
      → Held xs (sv.report resumed total size signals text w)
  pub sleep_keeps : (n : ℕ) (xs : List WorkloadItem) (w : W) → Held xs w → Held xs (sv.sleep n w)
  pub complete_keeps :
      (total size : ℕ) (xs : List WorkloadItem) (w : W)
      → Held xs w
      → Held xs (sv.complete total size w)
  pub resume_adds :
      (item : WorkloadItem) (xs : List WorkloadItem) (w : W)
      → (resume_item sv item w).0 ≡ ok tt
      → Held xs w
      → Held (xs ++ item ∷ []) (resume_item sv item w).1
  pub failure_leaves :
      (item : WorkloadItem) (xs : List WorkloadItem) (w : W) (e : Error)
      → (resume_item sv item w).0 ≡ err e
      → Held xs w
      → Part xs (resume_item sv item w).1

module _ {W : Type 0} (sv : Services W) (t : Tally sv) where
  open t use {Held, Part}

  -- After a batch that began with `past` resumed: all of it is held, or a first part if the batch was
  -- stopped.
  abbrev pub BatchDone : List WorkloadItem → List WorkloadItem → ℕ → Outcome ℕ → W → Type 0
  BatchDone past items n (next m) u = (m ≡ n + length items) × Held (past ++ items) u
  BatchDone past items n (stop e) u = (k : ℕ) × Part (past ++ take k items) u

  BatchDone-cons :
      (past : List WorkloadItem) (item : WorkloadItem) (items : List WorkloadItem) (n : ℕ)
      (o : Outcome ℕ) (u : W)
      → BatchDone (past ++ item ∷ []) items (suc n) o u
      → BatchDone past (item ∷ items) n o u
  BatchDone-cons past item items n (next m) u (count, held) =
      (omega (arith, count), subst (λ xs. Held xs u) (append_assoc past (item ∷ []) items) held)
  BatchDone-cons past item items n (stop x) u (k, part) =
      (suc k, subst (λ xs. Part xs u) (append_assoc past (item ∷ []) (take k items)) part)

  none_done : (past : List WorkloadItem) (u : W) → Part past u → Part (past ++ []) u
  none_done past u = subst (λ xs. Part xs u) (sym (append-nil past))

  pub process_batch-BatchDone :
      (past items : List WorkloadItem) (n : ℕ) (w : W)
      → Held past w
      → BatchDone past items n (process_batch sv items n w).0 (process_batch sv items n w).1
  unfolding process_batch
  process_batch-BatchDone past [] n w held =
      (omega arith, subst (λ xs. Held xs w) (sym (append-nil past)) held)
  process_batch-BatchDone past (item ∷ items) n w held =
      let (abort, w₁) = sv.override w in
      let (done, w₂) = resume_item sv item w₁ in
      let before = t.override_keeps past w held in
      elim (Bool-cases (says_abort abort)) [
        | inl y ↦ rw y (0, none_done past w₁ (t.to_part past w₁ before))
        | inr n' ↦ elim (Result-cases done) [
          | inl (a, e) ↦
              rw (n', e)
                (BatchDone-cons past item items n _ _ (
                  process_batch-BatchDone (past ++ item ∷ []) items (suc n) w₂
                    (t.resume_adds item past w₁ e before)))
          | inr (x, e) ↦
              rw (n', e) (0, none_done past w₂ (t.failure_leaves item past w₁ x e before))
        ]
      ]

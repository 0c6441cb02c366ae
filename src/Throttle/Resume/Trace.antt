-- ===== src/Throttle/Resume/Trace.antt =====
-- The calls that the loop makes, in their order, with the workloads that are resumed on the way.
use app_lifecycle_kubernetes.Base.{
  ℕ, String, Bool, some, List, [], ◌∷◌, ◌++◌, ok, err, Error, ◌≡◌, ap,
}
use app_lifecycle_kubernetes.Types.{Signal}
use app_lifecycle_kubernetes.Throttle.Resume.{WorkloadItem, Services, resume_item}
use app_lifecycle_kubernetes.Throttle.Resume.Tally.{Tally}

module _ {W : Type 0} (sv : Services W) (w : W) where
  -- The calls made since the world was `w`. The list tells the resumes among them, in their order, each
  -- of which succeeded; the other calls are those that the loop makes between two resumes.
  pub data Trace : List WorkloadItem → W → Type 0 where
    begun : Trace [] w
    override_checked : {xs : List WorkloadItem} {v : W} → Trace xs v → Trace xs (sv.override v).1
    signals_collected : {xs : List WorkloadItem} {v : W} → Trace xs v → Trace xs (sv.collect v).1
    nodes_awaited :
        {xs : List WorkloadItem} {v u : W} (ready : Bool)
        → Trace xs v
        → sv.wait_ready v ≡ some (ready, u)
        → Trace xs u
    progress_reported :
        {xs : List WorkloadItem} {v : W} (resumed total size : ℕ) (signals : List Signal)
        (text : String)
        → Trace xs v
        → Trace xs (sv.report resumed total size signals text v)
    slept : {xs : List WorkloadItem} {v : W} (n : ℕ) → Trace xs v → Trace xs (sv.sleep n v)
    completed :
        {xs : List WorkloadItem} {v : W} (total size : ℕ)
        → Trace xs v
        → Trace xs (sv.complete total size v)
    resumed :
        {xs : List WorkloadItem} {v u : W} (item : WorkloadItem)
        → Trace xs v
        → resume_item sv item v ≡ (ok tt, u)
        → Trace (xs ++ item ∷ []) u

  -- The same, or such calls with a resume that failed as the last one.
  pub data Stopped (xs : List WorkloadItem) (u : W) : Type 0 where
    unharmed : Trace xs u → Stopped xs u
    failed :
        {v : W} (item : WorkloadItem) (e : Error)
        → Trace xs v
        → resume_item sv item v ≡ (err e, u)
        → Stopped xs u

  unfoldable pub trace_tally : Tally sv
  trace_tally = record {
    Held = Trace;
    Part = Stopped;
    to_part = λ xs v. unharmed;
    override_keeps = λ xs v. override_checked;
    collect_keeps = λ xs v. signals_collected;
    wait_keeps = λ xs v u b e trace. nodes_awaited b trace e;
    report_keeps =
        λ done total size signals text xs v. progress_reported done total size signals text;
    sleep_keeps = λ n xs v. slept n;
    complete_keeps = λ total size xs v. completed total size;
    resume_adds =
        λ item xs v e trace. resumed item trace (ap (λ r. (r, (resume_item sv item v).1)) e);
    failure_leaves =
        λ item xs v x e trace. failed item x trace (ap (λ r. (r, (resume_item sv item v).1)) e);
  }

-- ===== src/Reconcile/Manual/Loops.antt =====
-- The loops of a manual operation over the workloads: an operation that ends well has done all of them.
use app_lifecycle_kubernetes.Base.{
  String, List, [], ◌∷◌, ◌++◌, Action, Result, ok, err, Error, ◌≡◌, refl, Every, Every-map,
}
use app_lifecycle_kubernetes.Types.{Policy, Phase}
use app_lifecycle_kubernetes.Kube.{Workload}
use app_lifecycle_kubernetes.Client.{Client, describe}
use app_lifecycle_kubernetes.Base.Text.{◌+++◌}
use app_lifecycle_kubernetes.Reconcile.Parts.{Requeue}
use app_lifecycle_kubernetes.Reconcile.Acts.{report_phase, fail_with, or_fail, each_or_fail}

-- The workloads were acted on one after the other, each with success, from the first world to the last.
pub data Done {W : Type 0} (act : Workload → Action W (Unit {0}))
    : List Workload → W → W → Type 0 where
  none_left : {w : W} → Done act [] w w
  one_more :
      {x : Workload} {rest : List Workload} {w v u : W}
      → act x w ≡ (ok tt, v)
      → Done act rest v u
      → Done act (x ∷ rest) w u

pub or_fail-ok :
    {W A : Type 0} (c : Client W) (policy : Policy) (text : String) (r : Result A × W)
    (next : A → Action W Requeue) {q : Requeue} {u : W}
    → or_fail c policy text r next ≡ (ok q, u)
    → (a : A) × (v : W) × (r ≡ (ok a, v)) × (next a v ≡ (ok q, u))
unfolding fail_with
or_fail-ok c policy text (ok a, v) next h = (a, v, refl, h)
or_fail-ok c policy text (err e, v) next h = cc h

-- The loop answers only after every workload was done, and with what follows it.
pub each_or_fail-Done :
    {W : Type 0} (c : Client W) (policy : Policy) (text : String)
    (act : Workload → Action W (Unit {0})) (ws : List Workload) (next : Action W Requeue) (w u : W)
    {q : Requeue}
    → each_or_fail c policy text act ws next w ≡ (ok q, u)
    → (v : W) × Done act ws w v × (next v ≡ (ok q, u))
unfolding each_or_fail
each_or_fail-Done c policy text act [] next w u h = (w, none_left, h)
each_or_fail-Done c policy text act (x ∷ rest) next w u h =
    let (done, v, e, h') = or_fail-ok c policy _ (act x w) _ h in
    let (z, all, last) = each_or_fail-Done c policy text act rest next v u h' in
    (z, one_more e all, last)

-- The loop stops at the first workload that fails: those before it were done, the status says which one
-- failed, the error is returned, and no later workload is touched.
pub each_or_fail-stops :
    {W : Type 0} (c : Client W) (policy : Policy) (text : String)
    (act : Workload → Action W (Unit {0})) (next : Action W Requeue) (x : Workload)
    (rest : List Workload) {before : List Workload} {w v u : W} {e : Error}
    → Done act before w v
    → act x v ≡ (err e, u)
    → each_or_fail c policy text act (before ++ x ∷ rest) next w ≡ (
      err e,
      report_phase c policy Phase.failed ((text +++ x.name) +++ (": " +++ describe c e)) u,
    )
unfolding each_or_fail fail_with
each_or_fail-stops c policy text act next x rest none_left failed = rw failed refl
each_or_fail-stops c policy text act next x rest (one_more done more) failed =
    rw done (each_or_fail-stops c policy text act next x rest more failed)

-- An action makes a property of the world hold for its workload, where something is asked of both, and
-- spoils neither where it holds.
pub record Achieves {W : Type 0} (act : Workload → Action W (Unit {0}))
    (Asked Holds : W → Workload → Type 0) : Type 0 where
  pub achieves : (x : Workload) (w u : W) → Asked w x → act x w ≡ (ok tt, u) → Holds u x
  pub keeps : (x y : Workload) (w u : W) → Asked w x → act x w ≡ (ok tt, u) → Holds w y → Holds u y
  pub keeps_asked :
      (x y : Workload) (w u : W) → Asked w x → act x w ≡ (ok tt, u) → Asked w y → Asked u y

module _ {W : Type 0} {act : Workload → Action W (Unit {0})} {Asked Holds : W → Workload → Type 0}
    (good : Achieves act Asked Holds) where
  asked_still :
      (x : Workload) (ws : List Workload) (w u : W)
      → Asked w x
      → act x w ≡ (ok tt, u)
      → Every (Asked w) ws
      → Every (Asked u) ws
  asked_still x ws w u a e = Every-map (Asked w) (Asked u) ws (λ y. good.keeps_asked x y w u a e)

  Done-keeps :
      (y : Workload) {ws : List Workload} {w u : W}
      → Done act ws w u
      → Every (Asked w) ws
      → Holds w y
      → Holds u y
  Done-keeps y none_left asked h = h
  Done-keeps y (one_more {x = x} {rest = rest} {w = w} {v = v} e all) (a, asked) h =
      Done-keeps y all (asked_still x rest w v a e asked) (good.keeps x y w v a e h)

  -- What the action makes hold for one workload, the loop makes hold for all.
  pub Done-achieves :
      {ws : List Workload} {w u : W} → Done act ws w u → Every (Asked w) ws → Every (Holds u) ws
  Done-achieves none_left asked = tt
  Done-achieves (one_more {x = x} {rest = rest} {w = w} {v = v} e all) (a, asked) =
      let later = asked_still x rest w v a e asked in
      (Done-keeps x all later (good.achieves x w v a e), Done-achieves all later)

-- A property that an action leaves alone is left alone by its loop.
pub Done-invariant :
    {W : Type 0} {act : Workload → Action W (Unit {0})} (I : W → Type 0)
    → ((x : Workload) (w u : W) → act x w ≡ (ok tt, u) → I w → I u)
    → {ws : List Workload} {w u : W} → Done act ws w u
    → I w
    → I u
Done-invariant I step none_left i = i
Done-invariant I step (one_more e all) i = Done-invariant I step all (step _ _ _ e i)

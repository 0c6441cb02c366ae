-- ===== src/Client.antt =====
-- What the operator calls and does not implement: the API client of controller-runtime, client-go's
-- retry helper, the context and the clock. They act on a world `W` of which nothing is known.
use app_lifecycle_kubernetes.Base.{
  ℕ, String, Bool, Option, List, Result, err, not_found, conflict, canceled, message, panicked,
  wrapped, Error, Action, ◌≡◌, ◌≢◌, sym, ap, ◌∙◌,
}
use app_lifecycle_kubernetes.Base.Dict.{Dict}
use app_lifecycle_kubernetes.Base.Text.{◌+++◌}
use app_lifecycle_kubernetes.Types.{LabelSelector, Policy}
use app_lifecycle_kubernetes.Kube.{Workload, Pod, Node, OwnerReference}

-- The calls on one kind of object; `get` takes the namespace and the name, `patch` the object before
-- and after the change (`client.MergeFrom`), `list` a namespace and a selector.
pub record Objects (W : Type 0) (A : Type 0) : Type 0 where
  pub get : String → String → Action W A
  pub patch : A → A → Action W (Unit {0})
  pub list : String → Option LabelSelector → Action W (List A)

pub record Client (W : Type 0) : Type 0 where
  -- `retry.RetryOnConflict(retry.DefaultRetry, f)`
  pub retry_on_conflict : Action W (Unit {0}) → Action W (Unit {0})
  -- `ctx.Err()`, and `time.Now()` in nanoseconds
  pub context_error : W → Option Error
  pub now : W → ℕ × W
  -- the clock's value as RFC 3339 text
  pub format_time : ℕ → String
  -- `String()` of a `time.Duration`
  pub format_duration : ℕ → String
  -- `Error()` of an error that the API answered with
  pub error_text : Error → String
  pub sleep : ℕ → W → W
  -- the next tick of a `time.Ticker` with this period, or what `time.After` sends, or `false` where
  -- the context ends first
  pub tick : ℕ → W → Bool × W
  pub get_policy : String → String → Action W Policy
  pub get_namespace : String → Action W (Unit {0})
  -- `Status().Patch` from the first to the second, and `Status().Update`
  pub patch_status : Policy → Policy → Action W (Unit {0})
  pub update_status : Policy → Action W (Unit {0})
  -- `Update` of the whole object
  pub update_policy : Policy → Action W (Unit {0})
  pub list_policies : Action W (List Policy)
  -- the same through `APIReader`, past the cache
  pub list_policies_uncached : Action W (List Policy)
  pub deployments : Objects W Workload
  pub stateful_sets : Objects W Workload
  -- the owner references of a ReplicaSet, by namespace and name
  pub get_replica_set_owners : String → String → Action W (List OwnerReference)
  -- all pods, or those of a namespace
  pub list_pods : Option String → Action W (List Pod)
  -- a delete with grace period 0
  pub delete_pod_now : Pod → Action W (Unit {0})
  -- all nodes, or those with the labels
  pub list_nodes : Option (Dict String) → Action W (List Node)
  -- all nodes through `APIReader`
  pub list_nodes_uncached : Action W (List Node)

-- An error's text, as `Error()` and the verb `%v` give it.
unfoldable pub describe : {W : Type 0} → Client W → Error → String
describe c not_found = c.error_text not_found
describe c conflict = c.error_text conflict
describe c canceled = "context canceled"
describe c (message s) = s
describe c (panicked s) = s
describe c (wrapped s e) = s +++ (": " +++ describe c e)

-- The documented behaviour of `RetryOnConflict`: it runs the function again while that answers with
-- a conflict, so a run that does not conflict is the whole call.
pub record RetryLaws {W : Type 0} (c : Client W) : Type 1 where
  pub retry_settled :
      (f : Action W (Unit {0})) (w : W) → (f w).0 ≢ err conflict → c.retry_on_conflict f w ≡ f w

-- One run that answers, and not with a conflict, is the whole of a retried call.
pub retried :
    {W : Type 0} {c : Client W} (laws : RetryLaws c) (f : Action W (Unit {0})) (w : W)
    {r : Result (Unit {0})} {v : W}
    → f w ≡ (r, v)
    → r ≢ err conflict
    → c.retry_on_conflict f w ≡ (r, v)
retried laws f w e settled = laws.retry_settled f w (λ h. settled (sym (ap (λ t. t.0) e) ∙ h)) ∙ e

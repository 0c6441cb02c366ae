-- ===== src/Examples/Reconciling.antt =====
-- Reconciling a policy in a quiet cluster.
use app_lifecycle_kubernetes.Base.{
  String, true, false, some, List, [], ◌∷◌, ok, err, not_found, ◌≡◌, ◌≢◌, refl, inl,
}
use app_lifecycle_kubernetes.Types.{Policy, Phase, LifecycleAction}
use app_lifecycle_kubernetes.Kube.{Workload}
use app_lifecycle_kubernetes.Priority.{find_conflict}
use app_lifecycle_kubernetes.Override.{should_skip_operation}
use app_lifecycle_kubernetes.Reconcile.Freezing.{pending_freeze_stage}
use app_lifecycle_kubernetes.Reconcile.Resuming.{pending_resume_stage}
use app_lifecycle_kubernetes.Reconcile.Failing.{failure_stage, cleanup_stage}
use app_lifecycle_kubernetes.Reconcile.Skipping.{skip_stage, namespace_stage}
use app_lifecycle_kubernetes.Reconcile.Checking.{checking_stage}
use app_lifecycle_kubernetes.Reconcile.Manual.{run_operation}
use app_lifecycle_kubernetes.Nodes.Wait.{timed_out}
use app_lifecycle_kubernetes.Base.Int.{pos}
use app_lifecycle_kubernetes.Base.Text.{◌+++◌}
use app_lifecycle_kubernetes.Client.{Client, RetryLaws, describe}
use app_lifecycle_kubernetes.Progress.{update_status, with_status}
use app_lifecycle_kubernetes.Workloads.{freeze_deployment, freeze_once, freeze_stateful_set}
use app_lifecycle_kubernetes.Reconcile.{reconcile}
use app_lifecycle_kubernetes.Reconcile.Parts.{
  Operator, answer, fall_through, finished, is_failure_active,
}
use app_lifecycle_kubernetes.Reconcile.Freezing.{with_freeze_cancelled}
use app_lifecycle_kubernetes.Reconcile.Skipping.{missing_text}
use app_lifecycle_kubernetes.Reconcile.Acts.{freeze_now, report_phase}
use app_lifecycle_kubernetes.Reconcile.Manual.{list_then_act}
use app_lifecycle_kubernetes.Reconcile.Manual.Loops.{Done, none_left, one_more}
use app_lifecycle_kubernetes.Reconcile.Manual.Outcome.{Listed, AllFrozen, freeze_now-stops}
use app_lifecycle_kubernetes.Reconcile.Dispatch.{IsSettled, undetected, reconcile-IsSettled}
use app_lifecycle_kubernetes.Reconcile.Bookkeeping.{
  run_operation-marked, namespace_stage-missing, pending_freeze-unnamed,
}
use app_lifecycle_kubernetes.Reconcile.Operation.{IsAsked, Reads, reconcile-AllFrozen}
use app_lifecycle_kubernetes.Examples.Fixtures.{policy, with_operation, web, db, World, world}
use app_lifecycle_kubernetes.Examples.Quiet.{quiet_client, quiet_laws, quiet}

abbrev pub operator : Operator World
operator = record {
  client = quiet_client;
  http = λ url seconds w. (ok (some 200), w);
  select = λ period seconds w. (timed_out, w);
  scrape = λ selector cpu memory source w. (ok ([], pos 0, pos 0), w);
  startup_complete = λ w. true;
  metrics_cache = λ w. record {
    signals = [];
    average_cpu = pos 0;
    average_memory = pos 0;
    fetched_at = 0;
    ttl = 0;
  };
  with_metrics_cache = λ cache w. w;
  wait_fuel = 5;
  clear_fuel = 5;
  resume_fuel = 5;
}

abbrev pub asking : LifecycleAction → Policy
asking action = record (with_operation "op-2" "op-1" policy) {
  spec = record (with_operation "op-2" "op-1" policy).spec { action = action };
}

abbrev pub asked_for : LifecycleAction → World
asked_for action = record world { policy = asking action }

reads : (action : LifecycleAction) → Reads operator "ops" "shop" (asking action) (asked_for action)
reads action = record {
  policies = asking action ∷ [];
  read = asked_for action;
  listed = asked_for action;
  looked = asked_for action;
  policy_read = refl;
  policies_listed = refl;
  is_alone = unfold find_conflict in refl;
  namespace_found = refl;
}

pub is_asked : (action : LifecycleAction) → IsAsked (asking action)
is_asked action = record {
  no_freeze = refl;
  no_resume = refl;
  no_failure = unfold is_failure_active in refl;
  no_failed_node = refl;
  is_due = unfold should_skip_operation in refl;
  not_checking = refl;
}

abbrev after : LifecycleAction → World
after action = (reconcile operator "ops" "shop" (asked_for action)).1

freezes :
    reconcile operator "ops" "shop" (asked_for LifecycleAction.freeze)
    ≡ (ok finished, after LifecycleAction.freeze)
unfolding reconcile find_conflict is_failure_active should_skip_operation pending_freeze_stage
    pending_resume_stage failure_stage cleanup_stage skip_stage namespace_stage checking_stage
    run_operation update_status freeze_deployment freeze_once freeze_stateful_set
freezes = refl

reconcile-AllFrozen_example :
    (ds : List Workload) × (ss : List Workload) × Listed quiet_client
      (asking LifecycleAction.freeze)
      ds
      ss
    × AllFrozen quiet (after LifecycleAction.freeze) ds ss
reconcile-AllFrozen_example =
    reconcile-AllFrozen operator quiet "ops" "shop" (asking LifecycleAction.freeze)
      (asked_for LifecycleAction.freeze) (after LifecycleAction.freeze) finished
      (reads LifecycleAction.freeze) (is_asked LifecycleAction.freeze) refl freezes

named : ◌≢◌ {A = String} "op-2" ""
named e = cc e

-- A policy whose operation was handled.
abbrev settled : Policy
settled = with_operation "op-2" "op-2" policy

abbrev settled_world : World
settled_world = record world { policy = settled }

settled-IsSettled : IsSettled settled
settled-IsSettled = record {
  no_freeze = refl;
  no_resume = refl;
  no_failure = inl refl;
  no_failed_node = refl;
  is_named = named;
  is_handled = refl;
  no_check = λ s e. cc e;
  no_event = undetected;
}

reconcile-IsSettled_example :
    reconcile operator "ops" "shop" settled_world ≡ (ok finished, settled_world)
reconcile-IsSettled_example =
    reconcile-IsSettled operator "ops" "shop" settled (settled ∷ []) settled_world settled_world
      settled_world refl refl (unfold find_conflict in refl) settled-IsSettled

abbrev processing : Policy
processing =
    with_status (asking LifecycleAction.freeze) Phase.freezing "Processing request" false
      (asking LifecycleAction.freeze)

run_operation-marked_example :
    (run_operation operator (asking LifecycleAction.freeze) (asked_for LifecycleAction.freeze)
      ≡ list_then_act operator
          (asking LifecycleAction.freeze)
          (record (asked_for LifecycleAction.freeze) { policy = processing }))
    × (should_skip_operation processing ≡ true)
run_operation-marked_example =
    run_operation-marked operator quiet_laws (asking LifecycleAction.freeze)
      (asking LifecycleAction.freeze) (asked_for LifecycleAction.freeze)
      (asked_for LifecycleAction.freeze)
      (record (asked_for LifecycleAction.freeze) { policy = processing }) refl refl refl named refl

-- The same cluster without any namespace.
abbrev homeless : Client World
homeless = record quiet_client { get_namespace = λ name w. (err not_found, w) }

homeless_laws : RetryLaws homeless
homeless_laws = record { retry_settled = λ f w settled. refl }

abbrev missing : Policy
missing =
    with_status (asking LifecycleAction.freeze) Phase.failed
      (missing_text (asking LifecycleAction.freeze)) false (asking LifecycleAction.freeze)

namespace_stage-missing_example :
    (namespace_stage homeless (asking LifecycleAction.freeze) (asked_for LifecycleAction.freeze)
      ≡ (ok (answer finished), record (asked_for LifecycleAction.freeze) { policy = missing }))
    × (should_skip_operation missing ≡ true)
namespace_stage-missing_example =
    namespace_stage-missing homeless homeless_laws (asking LifecycleAction.freeze)
      (asking LifecycleAction.freeze) (asked_for LifecycleAction.freeze)
      (asked_for LifecycleAction.freeze) (asked_for LifecycleAction.freeze)
      (record (asked_for LifecycleAction.freeze) { policy = missing }) refl refl refl refl named
      refl

-- A policy without an operation id whose freeze is to come in a second.
abbrev freezing_soon : Policy
freezing_soon = record (with_operation "" "" policy) {
  spec = record (with_operation "" "" policy).spec { freeze_delay = 1000000000 };
  status = record policy.status { pending_freeze = true; freeze_delay_started_at = some 4 };
}

abbrev soon : World
soon = record world { policy = freezing_soon }

abbrev called_off : World
called_off = record world { policy = with_freeze_cancelled freezing_soon }

pending_freeze-unnamed_example :
    (pending_freeze_stage quiet_client freezing_soon soon
      ≡ (ok (fall_through (with_freeze_cancelled freezing_soon)), called_off))
    × ((with_freeze_cancelled freezing_soon).status.pending_freeze ≡ false)
pending_freeze-unnamed_example =
    pending_freeze-unnamed quiet_client quiet_laws freezing_soon freezing_soon
      (with_freeze_cancelled freezing_soon) soon soon called_off called_off refl refl refl refl refl

abbrev gone : Workload
gone = record web { name = "gone" }

abbrev frozen_first : World
frozen_first = (freeze_deployment quiet_client web (some policy) world).1

first_is_unfrozen :
    Done (λ x. freeze_deployment quiet_client x (some policy)) (web ∷ []) world frozen_first
unfolding freeze_deployment freeze_once
first_is_unfrozen = one_more refl none_left

gone_fails :
    freeze_deployment quiet_client gone (some policy) frozen_first ≡ (err not_found, frozen_first)
unfolding freeze_deployment freeze_once
gone_fails = refl

freeze_now-stops_example : freeze_now quiet_client policy (web ∷ gone ∷ [], db ∷ []) world ≡ (
  err not_found,
  report_phase quiet_client policy Phase.failed
      (("Failed to freeze deployment " +++ "gone") +++ (": " +++ describe quiet_client not_found))
      frozen_first,
)
freeze_now-stops_example =
    freeze_now-stops quiet_client policy (web ∷ []) [] (db ∷ []) gone world frozen_first
      frozen_first not_found first_is_unfrozen gone_fails

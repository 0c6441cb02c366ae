-- ===== src/Examples/Startups.antt =====
-- Pending resumes, the marks of a startup and the watches in a small cluster.
use app_lifecycle_kubernetes.Base.{
  String, true, false, some, [], ◌∷◌, ok, ltb, ◌≡◌, ◌≢◌, refl, arith, str_eq_iff, here,
}
use app_lifecycle_kubernetes.Types.{Policy, Phase}
use app_lifecycle_kubernetes.Progress.{
  progress, with_status, with_progress, with_completion, with_pre_conditions,
}
use app_lifecycle_kubernetes.Priority.{resume_rank}
use app_lifecycle_kubernetes.Priority.Progress.{GoesBefore}
use app_lifecycle_kubernetes.PreConditions.{}
use app_lifecycle_kubernetes.PreConditions.Wait.{checked_status}
use app_lifecycle_kubernetes.PreConditions.Wait.Outcomes.{}
use app_lifecycle_kubernetes.Reconcile.Parts.{
  Operator, answer, requeue_after, seconds, is_failure_active,
}
use app_lifecycle_kubernetes.Reconcile.Resuming.{
  pending_resume_stage, resume_in_turn, hold_resume, with_held_status, with_waiting,
}
use app_lifecycle_kubernetes.Reconcile.Turns.{IsDue, resume_waits_turn}
use app_lifecycle_kubernetes.Reconcile.Bookkeeping.{hold_resume-loses}
use app_lifecycle_kubernetes.Startup.{
  with_resume_pending, with_freeze_pending, resume_text, resume_action, mark_resume,
}
use app_lifecycle_kubernetes.Startup.Marks.{mark_resume-IsDue}
use app_lifecycle_kubernetes.Watches.{reconciles_update, with_failure_detected, with_ready_detected}
use app_lifecycle_kubernetes.Watches.Events.{reports_are_ignored, marks_reconcile}
use app_lifecycle_kubernetes.Examples.Fixtures.{
  policy, with_operation, waiting, World, client, client_laws, world,
}
use app_lifecycle_kubernetes.Examples.Quiet.{quiet_client, quiet_laws}
use app_lifecycle_kubernetes.Examples.Reconciling.{operator}
use app_lifecycle_kubernetes.Examples.Waits.{conditions, guarded}

-- A resume that is due, behind one with a higher priority.
abbrev due : Policy
due = with_operation "op-1" "op-1" (waiting "b" 0)

abbrev queued : Operator World
queued = record operator {
  client = record quiet_client { list_policies_uncached = λ w. (ok (waiting "a" 5 ∷ due ∷ []), w) };
}

due-IsDue : IsDue queued due world
due-IsDue = record {
  is_pending = refl;
  startup_done = refl;
  no_failure = unfold is_failure_active in refl;
  no_operation = refl;
}

uids_differ : ◌≢◌ {A = String} "a" "b"
uids_differ e = cc ((str_eq_iff "a" "b").1 e)

first-GoesBefore : GoesBefore due (waiting "a" 5)
unfolding resume_rank
first-GoesBefore = record { is_other = uids_differ; is_pending = refl; is_higher = omega arith }

resume_waits_turn_example :
    pending_resume_stage queued due world ≡ (ok (answer (requeue_after (seconds 10))), world)
resume_waits_turn_example =
    resume_waits_turn queued due (waiting "a" 5) (waiting "a" 5 ∷ due ∷ []) world world due-IsDue
      refl (here refl) first-GoesBefore

-- The same one alone, with a delay of nine nanoseconds that began at two.
abbrev delayed : Policy
delayed = record due {
  spec = record due.spec { resume_delay = 9 };
  status = record due.status { resume_delay_started_at = some 2 };
}

abbrev alone : Operator World
alone = record operator {
  client = record quiet_client { list_policies_uncached = λ w. (ok (delayed ∷ []), w) };
}

-- A failure is recorded after the policy was read.
abbrev governed : Policy
governed = record guarded { spec = record guarded.spec { handle_node_failure = true } }

abbrev failing : Policy
failing = record governed {
  status = record governed.status {
    failed_node_name = "n1";
    node_failure_event_detected_at = some 4;
  };
}

abbrev failing_world : World
failing_world = record world { policy = failing }

abbrev held : Policy
held =
    with_held_status (with_waiting (checked_status true 5 false "waiting") "waiting" governed)
      failing

hold_resume-loses_example :
    (hold_resume client governed conditions "waiting" "waiting" failing_world
      ≡ (ok (answer (requeue_after (seconds 0))), record failing_world { policy = held }))
    × (is_failure_active held ≡ false)
hold_resume-loses_example =
    hold_resume-loses client client_laws governed failing conditions "waiting" "waiting"
      failing_world failing_world failing_world (record failing_world { policy = held }) 5 refl refl
      refl refl (unfold is_failure_active in refl) (unfold is_failure_active in refl)

-- A policy that asks for an operation when the operator starts.
abbrev marked : Policy
marked = with_resume_pending 5 (resume_text quiet_client policy) (resume_action policy) policy

-- The flag is set some time after the marking, at which the clock shows 5.
abbrev starting : Operator World
starting = record operator { startup_complete = λ w. ltb 5 w.clock }

abbrev started : World
started = record world { policy = marked; clock = 9 }

mark_resume-IsDue_example :
    (mark_resume quiet_client policy 5 world ≡ (ok tt, record world { policy = marked }))
    × IsDue starting marked started
    × (pending_resume_stage starting marked started ≡ resume_in_turn starting marked started)
mark_resume-IsDue_example =
    mark_resume-IsDue starting quiet_laws policy policy 5 world world
      (record world { policy = marked }) started refl refl refl (unfold is_failure_active in refl)
      refl

reports_are_ignored_example :
    (reconciles_update 3 3 due (with_status policy Phase.frozen "done" false due) ≡ false)
    × (reconciles_update 3 3 due (with_progress (progress 1 4 2 [] 5 "batch") due) ≡ false)
    × (reconciles_update 3 3 due (with_completion 4 2 5 due) ≡ false)
    × (reconciles_update 3 3 due (with_pre_conditions (checked_status true 5 false "waiting") due)
        ≡ false)
reports_are_ignored_example =
    reports_are_ignored 3 4 2 5 due policy Phase.frozen "done" false (progress 1 4 2 [] 5 "batch")
      (checked_status true 5 false "waiting")

marks_reconcile_example :
    (reconciles_update 3 3 delayed (with_freeze_pending 5 "soon" delayed) ≡ true)
    × (reconciles_update 3 3 delayed (with_resume_pending 5 "soon" "RESUME_DELAYED" delayed) ≡ true)
    × (reconciles_update 3 3 delayed (with_failure_detected "n1" 5 delayed) ≡ true)
    × (reconciles_update 3 3 delayed (with_ready_detected 5 delayed) ≡ true)
marks_reconcile_example =
    marks_reconcile 3 5 delayed "soon" "RESUME_DELAYED" "n1" refl refl refl refl

-- ===== src/Examples/Policies.antt =====
-- Decisions on policies on concrete inputs.
use app_lifecycle_kubernetes.Base.{
  String, true, false, none, List, [], ◌∷◌, Result, ok, err, conflict, ◌≡◌, ◌≢◌, ◌↔◌, ◌⊎◌, refl,
  arith, inl, In, here, there, str_eq_iff,
}
use app_lifecycle_kubernetes.Types.{Policy}
use app_lifecycle_kubernetes.Override.{should_abort}
use app_lifecycle_kubernetes.Override.Decisions.{IsNewCommand, should_abort-startup_iff}
use app_lifecycle_kubernetes.Priority.{is_blocked_by, gives_way, find_conflict}
use app_lifecycle_kubernetes.Priority.Progress.{GoesBefore, is_blocked_by_iff, CanGo, some_CanGo}
use app_lifecycle_kubernetes.Priority.Conflict.{Compete, one_gives_way, namesakes_both_stay}
use app_lifecycle_kubernetes.Examples.Fixtures.{policy, with_operation, waiting}

-- The new command op-2 stops a startup resume after op-1 was handled, but not as the first of all.
stopped :
    should_abort (with_operation "op-2" "op-1" policy) (with_operation "op-1" "op-1" policy) true
    ≡ true
unfolding should_abort
stopped = refl

not_stopped :
    should_abort (with_operation "op-2" "" policy) (with_operation "op-1" "" policy) true ≡ false
unfolding should_abort
not_stopped = refl

should_abort-startup_iff_example :
    (should_abort (with_operation "op-2" "op-1" policy) (with_operation "op-1" "op-1" policy) true
      ≡ true)
    ↔ (IsNewCommand (with_operation "op-2" "op-1" policy) (with_operation "op-1" "op-1" policy)
        × (◌≢◌ {A = String} "op-1" ""))
should_abort-startup_iff_example =
    should_abort-startup_iff (with_operation "op-2" "op-1" policy)
      (with_operation "op-1" "op-1" policy)

abbrev queue : List Policy
queue = waiting "a" 5 ∷ waiting "b" 0 ∷ waiting "c" 2 ∷ []

is_blocked_by_iff_example :
    (is_blocked_by (waiting "b" 0) queue ≡ true)
    ↔ ((other : Policy) × In other queue × GoesBefore (waiting "b" 0) other)
is_blocked_by_iff_example = is_blocked_by_iff (waiting "b" 0) queue

some_CanGo_example : (q : Policy) × CanGo queue q
some_CanGo_example = some_CanGo queue (waiting "b" 0) (there (here refl)) refl

names_differ : ◌≢◌ {A = String} "a" "c"
names_differ e = cc ((str_eq_iff "a" "c").1 e)

Compete-waiting : Compete (waiting "a" 0) (waiting "c" 0)
Compete-waiting = record {
  distinct = names_differ;
  same_target = refl;
  p_stays = refl;
  q_stays = refl;
  p_not_failed = refl;
  q_not_failed = refl;
}

namesakes_both_stay_example :
    (find_conflict (waiting "a" 0) (waiting "a" 0 ∷ waiting "c" 0 ∷ []) ≡ none)
    × (find_conflict (waiting "c" 0) (waiting "a" 0 ∷ waiting "c" 0 ∷ []) ≡ none)
namesakes_both_stay_example =
    namesakes_both_stay (waiting "a" 0) (waiting "c" 0) Compete-waiting refl refl

abbrev older : Policy
older = record policy { metadata = record policy.metadata { uid = "c"; creation_timestamp = 9 } }

Compete-older : Compete (waiting "a" 0) older
Compete-older = record {
  distinct = names_differ;
  same_target = refl;
  p_stays = refl;
  q_stays = refl;
  p_not_failed = refl;
  q_not_failed = refl;
}

one_gives_way_example :
    ((gives_way (waiting "a" 0) older ≡ true) × (gives_way older (waiting "a" 0) ≡ false))
    ⊎ ((gives_way (waiting "a" 0) older ≡ false) × (gives_way older (waiting "a" 0) ≡ true))
one_gives_way_example = one_gives_way (waiting "a" 0) older Compete-older (inl (omega arith))

named : ◌≢◌ {A = String} "op-1" ""
named e = cc e

ok-ne-conflict : ◌≢◌ {A = Result (Unit {0})} (ok tt) (err conflict)
ok-ne-conflict e = cc e

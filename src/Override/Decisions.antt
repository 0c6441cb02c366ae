-- ===== src/Override/Decisions.antt =====
-- Exactly when an operation is skipped, and exactly when a running resume is stopped.
use app_lifecycle_kubernetes.Base.{true, false, ◌≡◌, ◌≢◌, ◌↔◌, ◌⊎◌, arith, str_eq_iff}
use app_lifecycle_kubernetes.Types.{Policy, is_freeze}
use app_lifecycle_kubernetes.Override.{is_checking, should_skip_operation, should_abort}

-- An operation is skipped exactly when it has an id, no pre-condition check is under way, and its id
-- is the one handled last.
pub should_skip_operation_iff :
    (p : Policy)
    → (should_skip_operation p ≡ true) ↔ (
        (p.spec.operation_id ≢ "")
        × (is_checking p.status.pre_conditions_status ≡ false)
        × (p.status.last_handled_operation_id ≡ p.spec.operation_id))
unfolding should_skip_operation
should_skip_operation_iff p = ground (
  arith,
  str_eq_iff p.spec.operation_id "",
  str_eq_iff p.status.last_handled_operation_id p.spec.operation_id,
)

-- A new manual command: its id is not empty, not handled, and not the one the resume began with.
abbrev pub IsNewCommand : Policy → Policy → Type 0
IsNewCommand latest policy =
    (latest.spec.operation_id ≢ "")
    × (latest.status.last_handled_operation_id ≢ latest.spec.operation_id)
    × (latest.spec.operation_id ≢ policy.spec.operation_id)

-- A startup resume is stopped exactly by a new manual command, and only once some operation was
-- handled before.
pub should_abort-startup_iff :
    (latest policy : Policy)
    → (should_abort latest policy true ≡ true)
      ↔ (IsNewCommand latest policy × (latest.status.last_handled_operation_id ≢ ""))
unfolding should_abort
should_abort-startup_iff latest policy = ground (
  arith,
  str_eq_iff latest.spec.operation_id "",
  str_eq_iff latest.status.last_handled_operation_id "",
  str_eq_iff latest.status.last_handled_operation_id latest.spec.operation_id,
  str_eq_iff latest.spec.operation_id policy.spec.operation_id,
)

-- A manual resume is stopped exactly by a new manual command or by the action Freeze.
pub should_abort-manual_iff :
    (latest policy : Policy)
    → (should_abort latest policy false ≡ true)
      ↔ (IsNewCommand latest policy ⊎ (is_freeze latest.spec.action ≡ true))
unfolding should_abort
should_abort-manual_iff latest policy = ground (
  arith,
  str_eq_iff latest.spec.operation_id "",
  str_eq_iff latest.status.last_handled_operation_id latest.spec.operation_id,
  str_eq_iff latest.spec.operation_id policy.spec.operation_id,
)

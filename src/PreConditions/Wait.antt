-- ===== src/PreConditions/Wait.antt =====
-- The wait for the pre-conditions of a manual resume: `waitForPreConditions` of
-- internal/controller/namespacelifecyclepolicy_controller.go.
pub mod Outcomes
use app_lifecycle_kubernetes.Base.{
  ℕ, zero, suc, String, Bool, true, false, not, ◌&&◌, Option, none, some, Action, Result, ok, err,
  message, logged, default_if_zero, if◌then◌else◌,
}
use app_lifecycle_kubernetes.Base.Int.{pos}
use app_lifecycle_kubernetes.Base.Decimal.{itoa}
use app_lifecycle_kubernetes.Base.Text.{◌+++◌}
use app_lifecycle_kubernetes.Types.{Policy, PreConditionsConfig, PreConditionsStatus, is_freeze}
use app_lifecycle_kubernetes.Client.{Client, describe}
use app_lifecycle_kubernetes.Override.{is_manual_pending}
use app_lifecycle_kubernetes.Progress.{update_pre_conditions_status}
use app_lifecycle_kubernetes.Nodes.Wait.{WaitEvent, done, timed_out, ticked, or_canceled}
use app_lifecycle_kubernetes.PreConditions.{Http, check_pre_conditions}

-- The configuration, where it is set and enabled.
abbrev pub enabled_config : Option PreConditionsConfig → Option PreConditionsConfig
enabled_config none = none
enabled_config (some config) = if config.enabled then some config else none

abbrev pub is_enabled : Option PreConditionsConfig → Bool
is_enabled none = false
is_enabled (some config) = config.enabled

abbrev pub checked_status : Bool → ℕ → Bool → String → PreConditionsStatus
checked_status checking now passed text = record {
  checking = checking;
  last_checked_at = some now;
  passed = passed;
  message = text;
}

-- The status of a check that is written with the time; an error is only logged.
unfoldable pub note_check : {W : Type 0} → Client W → Policy → Bool → Bool → String → W → W
unfolding update_pre_conditions_status
note_check c policy checking passed text w =
    let (now, w₁) = c.now w in
    logged (update_pre_conditions_status c policy (checked_status checking now passed text)) w₁

-- A tick ends the wait with a result, or leaves the policy to go on with.
pub data Tick : Type 0 where
  ended : Result (Unit {0}) → Tick
  waits : Policy → Tick

-- `hasNewOperation && Spec.Action == Freeze`
unfoldable pub is_freeze_requested : Policy → Bool → Bool
is_freeze_requested latest is_startup =
    is_manual_pending latest is_startup && is_freeze latest.spec.action

unfoldable pub after_check :
    {W : Type 0} → Client W → Policy → Result (Bool × String) → W → Tick × W
unfolding note_check
after_check c policy (err e) w = (
  ended (err e),
  note_check c policy false false ("Error checking pre-conditions: " +++ describe c e) w,
)
after_check c policy (ok (true, text)) w =
    (ended (ok tt), note_check c policy false true "All pre-conditions passed" w)
after_check c policy (ok (false, text)) w = (waits policy, note_check c policy true false text w)

unfoldable pub check_once : {W : Type 0} → Client W → Http W → Policy → W → Tick × W
unfolding after_check
check_once c http policy w =
    let (checked, w₁) = check_pre_conditions c http policy w in after_check c policy checked w₁

-- The policy as it is read at a tick; the one at hand serves where that fails.
unfoldable pub on_latest :
    {W : Type 0} → Client W → Http W → Bool → Policy → Result Policy → W → Tick × W
unfolding is_freeze_requested check_once note_check
on_latest c http is_startup policy (err e) w = check_once c http policy w
on_latest c http is_startup policy (ok latest) w =
    if is_freeze_requested latest is_startup
    then (
      ended (err (message "pre-conditions cancelled: new manual Freeze operation")),
      note_check c latest false false
          "Pre-conditions check cancelled - new manual Freeze operation received" w,
    )
    else if not (is_enabled latest.spec.pre_conditions)
    then (
      ended (ok tt),
      note_check c latest false false "Pre-conditions check cancelled - disabled" w,
    )
    else check_once c http latest w

unfoldable pub on_tick : {W : Type 0} → Client W → Http W → Bool → Policy → W → Tick × W
unfolding on_latest
on_tick c http is_startup policy w =
    let (read, w₁) = c.get_policy policy.namespace policy.name w in
    on_latest c http is_startup policy read w₁

abbrev pub timeout_error : ℕ → Result (Unit {0})
timeout_error seconds =
    err (message ("pre-conditions timeout after " +++ (itoa (pos seconds) +++ " seconds")))

module _ {W : Type 0} (c : Client W) (http : Http W) (is_startup : Bool) (seconds : ℕ)
    (select : W → WaitEvent × W) where
  -- The loop, over what `select` finds, on fuel.
  unfoldable pub wait_checks_loop : ℕ → Policy → W → Option (Result (Unit {0}) × W)
  unfolding on_tick note_check
  wait_checks_loop zero policy w = none
  wait_checks_loop (suc fuel) policy w =
      let (event, w₁) = select w in
      let (tick, w₂) = on_tick c http is_startup policy w₁ in
      elim event [
        | done ↦ some (err (or_canceled (c.context_error w₁)), w₁)
        | timed_out ↦ some (
          timeout_error seconds,
          note_check c policy false false "Pre-conditions timeout reached" w₁,
        )
        | ticked ↦ elim tick [ ended r ↦ some (r, w₂) | waits p ↦ wait_checks_loop fuel p w₂ ]
      ]

-- `select` of a ticker's period and of the seconds until the timer fires, 0 for a timer that never does.
abbrev pub Select : Type 0 → Type 0
Select W = (period seconds : ℕ) → W → WaitEvent × W

unfoldable pub wait_configured :
    {W : Type 0}
    → Client W
    → Http W
    → Select W
    → Policy
    → Bool
    → ℕ
    → Option PreConditionsConfig
    → W
    → Option (Result (Unit {0}) × W)
unfolding wait_checks_loop note_check
wait_configured c http select policy is_startup fuel none w = some (ok tt, w)
wait_configured c http select policy is_startup fuel (some config) w =
    wait_checks_loop c http is_startup config.timeout_seconds
      (select (default_if_zero 5 config.check_interval) config.timeout_seconds) fuel policy
      (note_check c policy true false "Checking pre-conditions..." w)

unfoldable pub wait_for_pre_conditions :
    {W : Type 0}
    → Client W
    → Http W
    → Select W
    → Policy
    → Bool
    → ℕ
    → W
    → Option (Result (Unit {0}) × W)
unfolding wait_configured
wait_for_pre_conditions c http select policy is_startup fuel w =
    wait_configured c http select policy is_startup fuel (enabled_config policy.spec.pre_conditions)
      w

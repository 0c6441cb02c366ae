-- ===== src/PreConditions/Wait/Outcomes.antt =====
-- How the wait for pre-conditions ends.
use app_lifecycle_kubernetes.Base.{
  ℕ, zero, suc, String, Bool, true, false, Option, none, some, Result, ok, err, ◌≡◌, refl, subst,
  Bool-cases, ◌⊎◌, inl, inr, default_if_zero,
}
use app_lifecycle_kubernetes.Types.{Policy, PreConditionsConfig}
use app_lifecycle_kubernetes.Client.{Client}
use app_lifecycle_kubernetes.Nodes.Wait.{WaitEvent}
use app_lifecycle_kubernetes.Nodes.Wait.Outcomes.{Event-cases}
use app_lifecycle_kubernetes.PreConditions.{Http, check_pre_conditions}
use app_lifecycle_kubernetes.PreConditions.Wait.{
  enabled_config, is_enabled, note_check, Tick, ended, waits, is_freeze_requested, after_check,
  check_once, on_latest, on_tick, wait_checks_loop, Select, wait_configured,
  wait_for_pre_conditions,
}

pub Tick-cases :
    (t : Tick) → ((r : Result (Unit {0})) × (t ≡ ended r)) ⊎ ((p : Policy) × (t ≡ waits p))
Tick-cases (ended r) = inl (r, refl)
Tick-cases (waits p) = inr (p, refl)

-- A policy that the wait for a policy works on: the policy as the caller holds it, or what a read of such
-- a one by its name has answered.
pub data Current {W : Type 0} (c : Client W) (policy : Policy) : Policy → Type 0 where
  at_hand : Current c policy policy
  read_again :
      {p q : Policy} {w v : W}
      → Current c policy p
      → c.get_policy p.namespace p.name w ≡ (ok q, v)
      → Current c policy q

-- The world is what is left when a check has said that all pre-conditions of the policy hold, which are
-- enabled, and that is noted in its status.
pub data Passed {W : Type 0} (c : Client W) (http : Http W) (policy : Policy) (u : W) : Type 0 where
  passed :
      (p : Policy) (w v : W) (text : String)
      → Current c policy p
      → is_enabled p.spec.pre_conditions ≡ true
      → check_pre_conditions c http p w ≡ (ok (true, text), v)
      → u ≡ note_check c p false true "All pre-conditions passed" v
      → Passed c http policy u

-- The world is what is left when the policy as it was just read has its pre-conditions switched off, and
-- that is noted in its status.
pub data SwitchedOff {W : Type 0} (c : Client W) (policy : Policy) (u : W) : Type 0 where
  switched_off :
      (p q : Policy) (w v : W)
      → Current c policy p
      → c.get_policy p.namespace p.name w ≡ (ok q, v)
      → is_enabled q.spec.pre_conditions ≡ false
      → u ≡ note_check c q false false "Pre-conditions check cancelled - disabled" v
      → SwitchedOff c policy u

module _ {W : Type 0} (c : Client W) (http : Http W) (policy : Policy) where
  -- What an answer without an error means.
  abbrev Granted : Result (Unit {0}) → W → Type 0
  Granted (err e) u = Unit {0}
  Granted (ok _) u = Passed c http policy u ⊎ SwitchedOff c policy u

  -- The wait goes on only with the policy, and with pre-conditions that are enabled.
  abbrev GrantedTick : Tick × W → Type 0
  GrantedTick (ended r, u) = Granted r u
  GrantedTick (waits p, u) = Current c policy p × (is_enabled p.spec.pre_conditions ≡ true)

  abbrev GrantedWait : Option (Result (Unit {0}) × W) → Type 0
  GrantedWait none = Unit {0}
  GrantedWait (some (r, w)) = Granted r w

  after_check-GrantedTick :
      (p : Policy) (r : Result (Bool × String)) (w u : W)
      → Current c policy p
      → is_enabled p.spec.pre_conditions ≡ true
      → check_pre_conditions c http p w ≡ (r, u)
      → GrantedTick (after_check c p r u)
  unfolding after_check
  after_check-GrantedTick p (err e) w u live on h = tt
  after_check-GrantedTick p (ok (true, text)) w u live on h = inl (passed p w u text live on h refl)
  after_check-GrantedTick p (ok (false, text)) w u live on h = (live, on)

  check_once-GrantedTick :
      (p : Policy) (w : W)
      → Current c policy p
      → is_enabled p.spec.pre_conditions ≡ true
      → GrantedTick (check_once c http p w)
  unfolding check_once
  check_once-GrantedTick p w live on =
      after_check-GrantedTick p (check_pre_conditions c http p w).0 w
        (check_pre_conditions c http p w).1 live on refl

  on_latest-GrantedTick :
      (is_startup : Bool) (p : Policy) (r : Result Policy) (w v : W)
      → Current c policy p
      → is_enabled p.spec.pre_conditions ≡ true
      → c.get_policy p.namespace p.name w ≡ (r, v)
      → GrantedTick (on_latest c http is_startup p r v)
  unfolding on_latest
  on_latest-GrantedTick is_startup p (err e) w v live on got = check_once-GrantedTick p v live on
  on_latest-GrantedTick is_startup p (ok latest) w v live on got =
      elim (Bool-cases (is_freeze_requested latest is_startup)) [
        | inl y ↦ rw (y, GrantedTick) tt
        | inr n ↦ elim (Bool-cases (is_enabled latest.spec.pre_conditions)) [
          | inl still ↦ rw (n, still) (check_once-GrantedTick latest v (read_again live got) still)
          | inr off ↦ rw (n, off, GrantedTick) (inr (switched_off p latest w v live got off refl))
        ]
      ]

  on_tick-GrantedTick :
      (is_startup : Bool) (p : Policy) (w : W)
      → Current c policy p
      → is_enabled p.spec.pre_conditions ≡ true
      → GrantedTick (on_tick c http is_startup p w)
  unfolding on_tick
  on_tick-GrantedTick is_startup p w live on =
      on_latest-GrantedTick is_startup p (c.get_policy p.namespace p.name w).0 w
        (c.get_policy p.namespace p.name w).1 live on refl

  module _ (is_startup : Bool) (seconds : ℕ) (select : W → WaitEvent × W) where
    wait_checks_loop-GrantedWait :
        (fuel : ℕ) (p : Policy) (w : W)
        → Current c policy p
        → is_enabled p.spec.pre_conditions ≡ true
        → GrantedWait (wait_checks_loop c http is_startup seconds select fuel p w)
    unfolding wait_checks_loop
    wait_checks_loop-GrantedWait zero p w live on = tt
    wait_checks_loop-GrantedWait (suc fuel) p w live on =
        let (event, w₁) = select w in
        let (tick, w₂) = on_tick c http is_startup p w₁ in
        elim (Event-cases event) [
          | inl d ↦ rw (d, GrantedWait, wait_checks_loop) tt
          | inr (inl o) ↦ rw (o, GrantedWait, wait_checks_loop) tt
          | inr (inr t) ↦ elim (Tick-cases tick) [
            | inl (r, e) ↦
                rw (t, e, GrantedWait, wait_checks_loop)
                  (subst (λ z. GrantedTick (z, w₂)) e (on_tick-GrantedTick is_startup p w₁ live on))
            | inr (q, e) ↦
                let goes : Current c policy q × (is_enabled q.spec.pre_conditions ≡ true) =
                  subst (λ z. GrantedTick (z, w₂)) e
                    (on_tick-GrantedTick is_startup p w₁ live on) in
                rw (t, e, GrantedWait, wait_checks_loop)
                  (wait_checks_loop-GrantedWait fuel q w₂ goes.0 goes.1)
          ]
        ]

enabled_lem :
    (conditions : Option PreConditionsConfig) {config : PreConditionsConfig}
    → enabled_config conditions ≡ some config
    → is_enabled conditions ≡ true
enabled_lem none h = cc h
enabled_lem (some config) h = elim (Bool-cases config.enabled) [
  | inl y ↦ y
  | inr n ↦ cc (rw n at h)
]

wait_configured-GrantedWait :
    {W : Type 0} (c : Client W) (http : Http W) (select : Select W) (policy : Policy)
    (is_startup : Bool) (fuel : ℕ) (w : W) (config : PreConditionsConfig)
    → is_enabled policy.spec.pre_conditions ≡ true
    → GrantedWait c http policy
        (wait_configured c http select policy is_startup fuel (some config) w)
unfolding wait_configured
wait_configured-GrantedWait c http select policy is_startup fuel w config on =
    wait_checks_loop-GrantedWait c http policy is_startup config.timeout_seconds
      (select (default_if_zero 5 config.check_interval) config.timeout_seconds) fuel policy
      (note_check c policy true false "Checking pre-conditions..." w) at_hand on

-- Where pre-conditions are enabled, the wait for them answers without an error only when a check of the
-- policy, as the caller holds it or as it was read again by its name, has just said that all of its
-- enabled pre-conditions hold, or when a read of it has just answered with pre-conditions that are
-- switched off; the one or the other is noted in the status last.
pub wait_for_pre_conditions-Passed :
    {W : Type 0} (c : Client W) (http : Http W) (select : Select W) (policy : Policy)
    (is_startup : Bool) (fuel : ℕ) (w u : W) (config : PreConditionsConfig)
    → enabled_config policy.spec.pre_conditions ≡ some config
    → wait_for_pre_conditions c http select policy is_startup fuel w ≡ some (ok tt, u)
    → Passed c http policy u ⊎ SwitchedOff c policy u
unfolding wait_for_pre_conditions
wait_for_pre_conditions-Passed c http select policy is_startup fuel w u config on e =
    let e' : wait_configured c http select policy is_startup fuel (some config) w
        ≡ some (ok tt, u) =
      rw on at e in
    subst (GrantedWait c http policy) e' (
      wait_configured-GrantedWait c http select policy is_startup fuel w config
        (enabled_lem policy.spec.pre_conditions on))

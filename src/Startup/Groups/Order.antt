-- ===== src/Startup/Groups/Order.antt =====
-- In what order the startup freezes run, whatever the goroutines and other programs do in between.
use app_lifecycle_kubernetes.Base.{
  ℕ, ◌≤◌, ◌<◌, Option, List, [], ◌∷◌, ◌++◌, map, ◌≡◌, refl, sym, ap, ◌∙◌, subst, arith, ◌⊎◌, inl,
  inr, In, here, there,
}
use app_lifecycle_kubernetes.Types.{Policy}
use app_lifecycle_kubernetes.Client.{Client}
use app_lifecycle_kubernetes.Startup.{Sort}
use app_lifecycle_kubernetes.Nodes.Wait.{NodeSelect}
use app_lifecycle_kubernetes.Startup.Programs.{Program, returned}
use app_lifecycle_kubernetes.Startup.Groups.{
  freeze_policies, freeze_groups, Goroutine, Freezes, launch, Step, launched, moved, done,
  elsewhere, first_state, Reach, start, later,
}
use app_lifecycle_kubernetes.Startup.Groups.Held.{
  priority_of, Holds, Rises, In-append, In-append_right, Sorts, freeze_groups-Holds,
  freeze_groups-Rises,
}

-- The policies of some goroutines.
abbrev pub policies_of : {W : Type 0} → List (Goroutine W) → List Policy
policies_of = map (λ g. g.0)

-- Every policy to be frozen is done, runs or waits, and no group runs with or before a lower one.
pub record Ordered {W : Type 0} (policies : List Policy) (s : Freezes W) : Type 0 where
  pub counted :
      (q : Policy)
      → In q (freeze_policies policies)
      → In q s.ended ⊎ (In q (policies_of s.running) ⊎ Holds q s.waiting)
  pub level :
      (p q : Policy)
      → In p (policies_of s.running)
      → In q (policies_of s.running)
      → priority_of p ≡ priority_of q
  pub above :
      (p q : Policy)
      → In p (policies_of s.running)
      → Holds q s.waiting
      → priority_of p ≤ priority_of q
  pub rising : Rises s.waiting

-- A goroutine that moved stands for the same policy.
policies_of-moved :
    {W : Type 0} (before after : List (Goroutine W)) (p : Policy)
    (x y : Program W (Option (Unit {0})))
    → policies_of (before ++ ((p, x) ∷ after)) ≡ policies_of (before ++ ((p, y) ∷ after))
policies_of-moved [] after p x y = refl
policies_of-moved (g ∷ before) after p x y =
    ap (λ rest. g.0 ∷ rest) (policies_of-moved before after p x y)

policies_of-done :
    {W : Type 0} (before after : List (Goroutine W)) (g : Goroutine W) {q : Policy}
    → In q (policies_of (before ++ (g ∷ after)))
    → (q ≡ g.0) ⊎ In q (policies_of (before ++ after))
policies_of-done [] after g (here e) = inl e
policies_of-done [] after g (there i) = inr i
policies_of-done (x ∷ before) after g (here e) = inr (here e)
policies_of-done (x ∷ before) after g (there i) = elim (policies_of-done before after g i) [
  | inl e ↦ inl e
  | inr j ↦ inr (there j)
]

policies_of-rest :
    {W : Type 0} (before after : List (Goroutine W)) (g : Goroutine W) {q : Policy}
    → In q (policies_of (before ++ after))
    → In q (policies_of (before ++ (g ∷ after)))
policies_of-rest [] after g i = there i
policies_of-rest (x ∷ before) after g (here e) = here e
policies_of-rest (x ∷ before) after g (there i) = there (policies_of-rest before after g i)

module _ {W : Type 0} (c : Client W) (select : NodeSelect W) (fuel : ℕ) where
  policies_of-launch : (group : List Policy) → policies_of (launch c select fuel group) ≡ group
  policies_of-launch [] = refl
  policies_of-launch (p ∷ group) = ap (λ rest. p ∷ rest) (policies_of-launch group)

  module _ (policies : List Policy) where
    launched-Ordered :
        (s : Freezes W) (group : List Policy) (rest : List (List Policy))
        → s.running ≡ []
        → s.waiting ≡ group ∷ rest
        → Ordered policies s
        → Ordered policies (record s { waiting = rest; running = launch c select fuel group })
    launched-Ordered s group rest idle queue o =
        let rises : Rises (group ∷ rest) = subst Rises queue o.rising in
        let same = policies_of-launch group in
        record {
          counted = λ q i. elim (o.counted q i) [
            | inl e ↦ inl e
            | inr (inl r) ↦ elim (subst (λ r. In q (policies_of r)) idle r) [ ]
            | inr (inr w) ↦ elim (subst (Holds q) queue w) [
              | inl first ↦ inr (inl (subst (In q) (sym same) first))
              | inr behind ↦ inr (inr behind)
            ]
          ];
          level = λ p q i j. rises.1 p q (subst (In p) same i) (subst (In q) same j);
          above = λ p q i held. rises.0 p q (subst (In p) same i) held;
          rising = rises.2;
        }

    moved-Ordered :
        (s : Freezes W) (running : List (Goroutine W)) (w : W)
        → policies_of s.running ≡ policies_of running
        → Ordered policies s
        → Ordered policies (record s { running = running; world = w })
    moved-Ordered s running w same o = record {
      counted = λ q.
          subst
            (λ names.
              In q (freeze_policies policies) → In q s.ended ⊎ (In q names ⊎ Holds q s.waiting))
            same (o.counted q);
      level = λ p q i j. o.level p q (subst (In p) (sym same) i) (subst (In q) (sym same) j);
      above = λ p q i held. o.above p q (subst (In p) (sym same) i) held;
      rising = o.rising;
    }

    done-Ordered :
        (s : Freezes W) (before after : List (Goroutine W)) (g : Goroutine W)
        → s.running ≡ before ++ (g ∷ after)
        → Ordered policies s
        → Ordered policies (record s { running = before ++ after; ended = s.ended ++ (g.0 ∷ []) })
    done-Ordered s before after g split o =
        let was = λ (q : Policy) (i : In q (policies_of (before ++ after))).
          subst (λ r. In q (policies_of r)) (sym split) (policies_of-rest before after g i) in
        record {
          counted = λ q i. elim (o.counted q i) [
            | inl e ↦ inl (In-append s.ended (g.0 ∷ []) e)
            | inr (inl r) ↦
                elim (policies_of-done before after g (subst (λ t. In q (policies_of t)) split r)) [
                  | inl e ↦ inl (In-append_right s.ended (g.0 ∷ []) (here e))
                  | inr still ↦ inr (inl still)
                ]
            | inr (inr w) ↦ inr (inr w)
          ];
          level = λ p q i j. o.level p q (was p i) (was q j);
          above = λ p q i held. o.above p q (was p i) held;
          rising = o.rising;
        }

    Step-Ordered :
        (s t : Freezes W) → Step c select fuel s t → Ordered policies s → Ordered policies t
    Step-Ordered s t (launched group rest idle queue e) o =
        subst (Ordered policies) (sym e) (launched-Ordered s group rest idle queue o)
    Step-Ordered s t (moved before after p act next split e) o =
        subst (Ordered policies) (sym e)
          (moved-Ordered s _ _ (ap policies_of split ∙ policies_of-moved before after p _ _) o)
    Step-Ordered s t (done before after p result split e) o =
        subst (Ordered policies) (sym e) (done-Ordered s before after (p, returned result) split o)

    Reach-Ordered :
        {s t : Freezes W} → Reach c select fuel s t → Ordered policies s → Ordered policies t
    Reach-Ordered start o = o
    Reach-Ordered (later r step) o = Step-Ordered _ _ step (Reach-Ordered r o)
    Reach-Ordered (elsewhere {t} w r) o = moved-Ordered t t.running w refl (Reach-Ordered r o)

first_state-Ordered :
    {W : Type 0} {sort : Sort Policy} {sort_numbers : Sort ℕ} (policies : List Policy) (w : W)
    → Sorts sort sort_numbers
    → Ordered policies (first_state (freeze_groups sort sort_numbers policies) w)
first_state-Ordered policies w sorts = record {
  counted = λ q i. inr (inr (freeze_groups-Holds sorts policies q i));
  level = λ p q i j. elim i [ ];
  above = λ p q i held. elim i [ ];
  rising = freeze_groups-Rises sorts policies;
}

not_later : (p q : Policy) → priority_of q < priority_of p → priority_of p ≤ priority_of q → ⊥
not_later p q lt le = omega arith

-- While the startup freeze of a policy runs, every policy with a lower priority number that is to be
-- frozen at startup is done, whatever the goroutines and other programs do and in what order, where
-- sorting keeps the elements and sorts the numbers.
pub freeze_runs_in_order :
    {W : Type 0} (c : Client W) (select : NodeSelect W) (fuel : ℕ) (sort : Sort Policy)
    (sort_numbers : Sort ℕ) (policies : List Policy) (w : W) (s : Freezes W) (p q : Policy)
    → Sorts sort sort_numbers
    → Reach c select fuel (first_state (freeze_groups sort sort_numbers policies) w) s
    → In p (policies_of s.running)
    → In q (freeze_policies policies)
    → priority_of q < priority_of p
    → In q s.ended
freeze_runs_in_order c select fuel sort sort_numbers policies w s p q sorts reach runs asked lower =
    let o = Reach-Ordered c select fuel policies reach (first_state-Ordered policies w sorts) in
    elim (o.counted q asked) [
      | inl e ↦ e
      | inr (inl r) ↦ absurd (not_later p q lower (omega (arith, o.level p q runs r)))
      | inr (inr held) ↦ absurd (not_later p q lower (o.above p q runs held))
    ]

-- Once no goroutine runs and no group waits, all are done.
pub all_ended :
    {W : Type 0} (c : Client W) (select : NodeSelect W) (fuel : ℕ) {sort : Sort Policy}
    {sort_numbers : Sort ℕ} (policies : List Policy) (w : W) (s : Freezes W)
    → Sorts sort sort_numbers
    → Reach c select fuel (first_state (freeze_groups sort sort_numbers policies) w) s
    → s.running ≡ []
    → s.waiting ≡ []
    → (q : Policy) → In q (freeze_policies policies)
    → In q s.ended
all_ended c select fuel policies w s sorts reach idle empty q i =
    let o = Reach-Ordered c select fuel policies reach (first_state-Ordered policies w sorts) in
    elim (o.counted q i) [
      | inl e ↦ e
      | inr (inl r) ↦ elim (subst (λ t. In q (policies_of t)) idle r) [ ]
      | inr (inr held) ↦ absurd (subst (Holds q) empty held)
    ]

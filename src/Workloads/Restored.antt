-- ===== src/Workloads/Restored.antt =====
-- A resume in a quiet cluster, of a workload that is stored as it was listed or was resumed since.
use app_lifecycle_kubernetes.Base.{
  String, true, Option, none, some, Action, Result, ok, ◌≡◌, refl, sym, ap, subst, ◌∙◌, ◌⊎◌, inl,
  inr, pure, ◌>>=◌, and_then-ok, str_eq_iff, str_eq_refl, arith, if◌then◌else◌, is_some, Bool-cases,
  Option-cases,
}
use app_lifecycle_kubernetes.Base.Int.{ℤ, to_int32}
use app_lifecycle_kubernetes.Base.Dict.{lookup}
use app_lifecycle_kubernetes.Base.Decimal.{atoi}
use app_lifecycle_kubernetes.Kube.{Workload}
use app_lifecycle_kubernetes.Client.{Client, Objects, RetryLaws}
use app_lifecycle_kubernetes.Workloads.{
  annotation_original_replicas, restored_form, resume_once, resume_counted, resume_noted,
}
use app_lifecycle_kubernetes.Workloads.Quiet.{
  is_named, Stored, IsReleased, restored_form-IsReleased, body-settled,
}

abbrev count_of : Option ℤ → Option ℤ
count_of none = none
count_of (some n) = some (to_int32 n)

abbrev replicas_of : Option String → Option ℤ
replicas_of none = none
replicas_of (some note) = count_of (atoi note)

-- The number of replicas that the note of a freeze tells.
abbrev pub noted_replicas : Workload → Option ℤ
noted_replicas x = replicas_of (lookup annotation_original_replicas x.annotations)

restored_replicas :
    (count : ℤ) (x : Workload) → (restored_form count x).replicas ≡ some (to_int32 count)
unfolding restored_form
restored_replicas count x = refl

some-inj : {A : Type 0} {a b : A} → some a ≡ some b → a ≡ b
some-inj e = cc e

free_or_noted :
    (z : Workload) {note : String}
    → IsReleased z
    → lookup annotation_original_replicas z.annotations ≡ some note
    → ⊥
free_or_noted z free noted = cc

names_match :
    (ns name : String) (x : Workload)
    → is_named ns name x ≡ true
    → (x.namespace ≡ ns) × (x.name ≡ name)
names_match ns name x h = ground (arith, str_eq_iff x.namespace ns, str_eq_iff x.name name)

module _ {W : Type 0} {objects : Objects W Workload} (stored : Stored objects) where
  -- The workload is stored as it was listed.
  abbrev pub Fresh : W → Workload → Type 0
  Fresh w x = stored.at w x.namespace x.name ≡ some x

  -- What is stored under the name of a listed workload has the replicas that the listed one notes, and no
  -- note of a freeze.
  abbrev pub RestoredAs : W → Workload → Type 0
  RestoredAs w x =
      (z : Workload) × (stored.at w x.namespace x.name ≡ some z)
      × IsReleased z
      × (z.replicas ≡ noted_replicas x)

  abbrev pub Pending : W → Workload → Type 0
  Pending w x = Fresh w x ⊎ RestoredAs w x

  pub RestoredAs-same :
      (w u : W) (x : Workload) → stored.at u ≡ stored.at w → RestoredAs w x → RestoredAs u x
  RestoredAs-same w u x same (z, at, free, count) =
      (z, (λ i. same i x.namespace x.name) ∙ at, free, count)

  pub Pending-same :
      (w u : W) (x : Workload) → stored.at u ≡ stored.at w → Pending w x → Pending u x
  Pending-same w u x same (inl fresh) = inl ((λ i. same i x.namespace x.name) ∙ fresh)
  Pending-same w u x same (inr r) = inr (RestoredAs-same w u x same r)

  -- What a resume of `x` has done.
  pub record Restores (x : Workload) (w u : W) : Type 0 where
    pub restored : RestoredAs u x
    pub keeps_restored : (y : Workload) → RestoredAs w y → RestoredAs u y
    pub keeps_pending : (y : Workload) → Pending w y → Pending u y

  idle-Restores :
      (x : Workload) (w u : W) → stored.at u ≡ stored.at w → RestoredAs w x → Restores x w u
  idle-Restores x w u same r = record {
    restored = RestoredAs-same w u x same r;
    keeps_restored = λ y. RestoredAs-same w u y same;
    keeps_pending = λ y. Pending-same w u y same;
  }

  module _ (count : ℤ) (x : Workload) (note : String)
      (noted : lookup annotation_original_replicas x.annotations ≡ some note)
      (counts : noted_replicas x ≡ some (to_int32 count)) where
    module _ (w v u : W) (fresh : Fresh w x) (same : stored.at v ≡ stored.at w)
        (patched : objects.patch x (restored_form count x) v ≡ (ok tt, u)) where
      at_u :
          (ns name : String)
          → stored.at u ns name
            ≡ (if is_named ns name x then some (restored_form count x) else stored.at w ns name)
      at_u ns name =
          stored.patch_stored x (restored_form count x) v u
            ((λ i. same i x.namespace x.name) ∙ fresh) (unfold restored_form in refl)
            (unfold restored_form in refl) patched ns name
          ∙ (λ i. if is_named ns name x then some (restored_form count x) else same i ns name)

      here-RestoredAs :
          (y : Workload) → y ≡ x → is_named y.namespace y.name x ≡ true → RestoredAs u y
      here-RestoredAs y e h = (
        restored_form count x,
        at_u y.namespace y.name ∙ rw h refl,
        restored_form-IsReleased count x,
        restored_replicas count x ∙ sym counts ∙ ap noted_replicas (sym e),
      )

      -- A workload of this name is stored as `x` is.
      namesake :
          (y z : Workload)
          → is_named y.namespace y.name x ≡ true
          → stored.at w y.namespace y.name ≡ some z
          → z ≡ x
      namesake y z h at =
          let (ns, name) = names_match y.namespace y.name x h in
          some-inj (sym at ∙ (λ i. stored.at w (sym ns i) (sym name i)) ∙ fresh)

      keeps-RestoredAs : (y : Workload) → RestoredAs w y → RestoredAs u y
      keeps-RestoredAs y (z, at, free, n) = elim (Bool-cases (is_named y.namespace y.name x)) [
        | inl h ↦ absurd (free_or_noted x (subst IsReleased (namesake y z h at) free) noted)
        | inr away ↦ (z, at_u y.namespace y.name ∙ (rw away at), free, n)
      ]

      keeps-Pending : (y : Workload) → Pending w y → Pending u y
      keeps-Pending y (inr r) = inr (keeps-RestoredAs y r)
      keeps-Pending y (inl at) = elim (Bool-cases (is_named y.namespace y.name x)) [
        | inl h ↦ inr (here-RestoredAs y (namesake y y h at) h)
        | inr away ↦ inl (at_u y.namespace y.name ∙ (rw away at))
      ]

      patched-Restores : is_named x.namespace x.name x ≡ true → Restores x w u
      patched-Restores h = record {
        restored = here-RestoredAs x refl h;
        keeps_restored = keeps-RestoredAs;
        keeps_pending = keeps-Pending;
      }

is_named_self : (x : Workload) → is_named x.namespace x.name x ≡ true
is_named_self x = rw (str_eq_refl x.namespace, str_eq_refl x.name) refl

-- What a run of the body of a resume does with the object that it reads.
abbrev resume_body : {W : Type 0} → Objects W Workload → ℤ → Workload → Action W (Unit {0})
resume_body objects count z =
    if is_some (lookup annotation_original_replicas z.annotations)
    then objects.patch z (restored_form count z)
    else pure tt

resume_body-cases :
    {W : Type 0} (objects : Objects W Workload) (count : ℤ) (z : Workload)
    → (IsReleased z × (resume_body objects count z ≡ pure tt))
      ⊎ (resume_body objects count z ≡ objects.patch z (restored_form count z))
resume_body-cases objects count z =
    elim (Option-cases (lookup annotation_original_replicas z.annotations)) [
      | inl free ↦ inl (free, rw free refl)
      | inr (note, noted) ↦ inr (rw noted refl)
    ]

module _ {W : Type 0} (c : Client W) (laws : RetryLaws c) {objects : Objects W Workload}
    (stored : Stored objects) where
  body-Restores :
      (count : ℤ) (x : Workload) (note : String) (w u : W)
      → lookup annotation_original_replicas x.annotations ≡ some note
      → noted_replicas x ≡ some (to_int32 count)
      → Pending stored w x
      → (objects.get x.namespace x.name >>= resume_body objects count) w ≡ (ok tt, u)
      → Restores stored x w u
  body-Restores count x note w u noted counts pending h =
      let (latest, v, got, rest) =
        and_then-ok (objects.get x.namespace x.name w) (resume_body objects count) h in
      let (found, ns, name) = stored.get_found x.namespace x.name w v latest got in
      let same : stored.at v ≡ stored.at w =
        sym (ap (λ t. stored.at t.1) got) ∙ stored.get_keeps x.namespace x.name w in
      on_latest latest v found same rest pending
    where
      on_latest :
          (latest : Workload) (v : W)
          → stored.at w x.namespace x.name ≡ some latest
          → stored.at v ≡ stored.at w
          → resume_body objects count latest v ≡ (ok tt, u)
          → Pending stored w x
          → Restores stored x w u
      on_latest latest v found same rest (inl fresh) =
          let here : latest ≡ x = some-inj (sym found ∙ fresh) in
          patched-Restores stored count x note noted counts w v u fresh same
            (let patches : resume_body objects count x v ≡ (ok tt, u) =
                subst (λ z. resume_body objects count z v ≡ (ok tt, u)) here rest in
              rw noted at patches)
            (is_named_self x)
      on_latest latest v found same rest (inr (z, at, free, n)) =
          let released : IsReleased latest = subst IsReleased (some-inj (sym at ∙ found)) free in
          let idle : ◌≡◌ {A = Result (Unit {0}) × W} (ok tt, v) (ok tt, u) = rw released at rest in
          idle-Restores stored x w u
            (subst (λ t. stored.at t ≡ stored.at w) (ap (λ t. t.1) idle) same) (z, at, free, n)

  resume_once-Restores :
      (count : ℤ) (x : Workload) (note : String) (w u : W)
      → lookup annotation_original_replicas x.annotations ≡ some note
      → noted_replicas x ≡ some (to_int32 count)
      → Pending stored w x
      → c.retry_on_conflict (resume_once objects count x) w ≡ (ok tt, u)
      → Restores stored x w u
  unfolding resume_once
  resume_once-Restores count x note w u noted counts pending h =
      body-Restores count x note w u noted counts pending (
        sym (
          laws.retry_settled _ w (
            body-settled stored IsReleased (restored_form count) (λ z. unfold restored_form in refl)
              (λ z. unfold restored_form in refl) (restored_form-IsReleased count)
              (resume_body objects count) (resume_body-cases objects count) x w))
        ∙ h)

  resume_counted-Restores :
      (count : Option ℤ) (x : Workload) (note : String) (w u : W)
      → lookup annotation_original_replicas x.annotations ≡ some note
      → noted_replicas x ≡ count_of count
      → Pending stored w x
      → resume_counted c objects count x w ≡ (ok tt, u)
      → Restores stored x w u
  unfolding resume_counted
  resume_counted-Restores none x note w u noted counts pending h = cc h
  resume_counted-Restores (some count) x note w u noted counts pending h =
      resume_once-Restores count x note w u noted counts pending h

  -- A resume that succeeds, of a workload that was listed with the note of a freeze, and is stored as it
  -- was listed or was restored since.
  pub resume_noted-Restores :
      (note : Option String) (x : Workload) (w u : W)
      → lookup annotation_original_replicas x.annotations ≡ note
      → is_some note ≡ true
      → Pending stored w x
      → resume_noted c objects note x w ≡ (ok tt, u)
      → Restores stored x w u
  unfolding resume_noted
  resume_noted-Restores none x w u noted there pending h = cc there
  resume_noted-Restores (some note) x w u noted there pending h =
      resume_counted-Restores (atoi note) x note w u noted (ap replicas_of noted) pending h

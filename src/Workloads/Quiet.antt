-- ===== src/Workloads/Quiet.antt =====
-- Freezing and resuming in a quiet cluster, where reads answer with what is stored and only the
-- operator writes: what a freeze or a resume that succeeds leaves stored.
use app_lifecycle_kubernetes.Base.{
  ℕ, String, Bool, true, ◌&&◌, Option, none, some, Action, Result, ok, err, conflict, ◌≡◌, ◌≢◌,
  refl, sym, ap, subst, ◌∙◌, ◌⊎◌, pure, ◌>>=◌, and_then, and_then-ok, str_eq, str_eq_refl,
  if◌then◌else◌, is_some, Bool-cases, inl, inr,
}
use app_lifecycle_kubernetes.Base.Int.{ℤ}
use app_lifecycle_kubernetes.Base.Dict.{lookup, lookup-remove}
use app_lifecycle_kubernetes.Kube.{Workload}
use app_lifecycle_kubernetes.Client.{Client, Objects, RetryLaws}
use app_lifecycle_kubernetes.Workloads.{
  annotation_original_replicas, has_zero_replicas, frozen_form, freeze_once, restored_form,
}

abbrev pub is_named : String → String → Workload → Bool
is_named namespace name x = str_eq x.namespace namespace && str_eq x.name name

-- The objects of one kind as the API server stores them. A get answers with the stored object and
-- changes nothing. A patch by `MergeFrom` sends the difference of the two objects, so one that succeeds
-- stores the second under the name where the first is what was stored. Neither conflicts: such a patch
-- names no resource version.
pub record Stored {W : Type 0} (objects : Objects W Workload) : Type 0 where
  pub at : W → String → String → Option Workload
  pub get_keeps : (ns name : String) (w : W) → at (objects.get ns name w).1 ≡ at w
  pub get_found :
      (ns name : String) (w v : W) (x : Workload)
      → objects.get ns name w ≡ (ok x, v)
      → (at w ns name ≡ some x) × (x.namespace ≡ ns) × (x.name ≡ name)
  pub get_settled : (ns name : String) (w : W) → (objects.get ns name w).0 ≢ err conflict
  pub patch_stored :
      (before after : Workload) (w u : W)
      → at w before.namespace before.name ≡ some before
      → after.namespace ≡ before.namespace
      → after.name ≡ before.name
      → objects.patch before after w ≡ (ok tt, u)
      → (ns name : String)
      → at u ns name ≡ (if is_named ns name before then some after else at w ns name)
  pub patch_settled :
      (before after : Workload) (w : W) → (objects.patch before after w).0 ≢ err conflict

module _ {W : Type 0} {objects : Objects W Workload} (stored : Stored objects)
    (Q : Workload → Type 0) where
  -- The object that is stored under the name of a workload has the property.
  abbrev pub StoredAs : W → Workload → Type 0
  StoredAs w x = (z : Workload) × (stored.at w x.namespace x.name ≡ some z) × Q z

bind-settled :
    {W A B : Type 0} (r : Result A × W) (f : A → Action W B)
    → r.0 ≢ err conflict
    → ((a : A) (v : W) → (f a v).0 ≢ err conflict)
    → (and_then r f).0 ≢ err conflict
bind-settled (ok a, v) f h k = k a v
bind-settled (err e, v) f h k = λ q. h (cc q)

idle-settled : {W : Type 0} (v : W) → ◌≢◌ {A = Result (Unit {0})} (ok tt) (err conflict)
idle-settled v q = cc q

-- A read, and either the property of what was read or a patch that gives it.
module _ {W : Type 0} {objects : Objects W Workload} (stored : Stored objects)
    (Q : Workload → Type 0) (change : Workload → Workload)
    (same_namespace : (z : Workload) → (change z).namespace ≡ z.namespace)
    (same_name : (z : Workload) → (change z).name ≡ z.name)
    (good : (z : Workload) → Q (change z)) where
  patched :
      (x y latest : Workload) (w u : W)
      → stored.at w latest.namespace latest.name ≡ some latest
      → latest.namespace ≡ x.namespace
      → latest.name ≡ x.name
      → objects.patch latest (change latest) w ≡ (ok tt, u)
      → StoredAs stored Q u x × (StoredAs stored Q w y → StoredAs stored Q u y)
  patched x y latest w u base ns name e =
      let at_u : (n m : String)
          → stored.at u n m
            ≡ (if is_named n m latest then some (change latest) else stored.at w n m) =
        stored.patch_stored latest (change latest) w u base (same_namespace latest)
          (same_name latest) e in
      (
        (
          change latest,
          at_u x.namespace x.name ∙ rw (ns, name, str_eq_refl x.namespace, str_eq_refl x.name) refl,
          good latest,
        ),
        λ h. elim (Bool-cases (is_named y.namespace y.name latest)) [
          | inl here ↦ (change latest, at_u y.namespace y.name ∙ rw here refl, good latest)
          | inr away ↦ (h.0, at_u y.namespace y.name ∙ (rw away h.1), h.2)
        ],
      )

  -- A read keeps what is stored.
  read_keeps :
      (ns name : String) (w v : W) {r : Result Workload}
      → objects.get ns name w ≡ (r, v)
      → stored.at v ≡ stored.at w
  read_keeps ns name w v e = sym (ap (λ t. stored.at t.1) e) ∙ stored.get_keeps ns name w

  -- The body of a retried freeze or resume: the object that was read has the property already, or it is
  -- patched.
  module _ (k : Workload → Action W (Unit {0}))
      (k-cases : (z : Workload)
        → (Q z × (k z ≡ pure tt)) ⊎ (k z ≡ objects.patch z (change z))) where
    pub body-StoredAs :
        (x y : Workload) (w u : W)
        → (objects.get x.namespace x.name >>= k) w ≡ (ok tt, u)
        → StoredAs stored Q u x × (StoredAs stored Q w y → StoredAs stored Q u y)
    body-StoredAs x y w u h =
        let (latest, v, got, rest) = and_then-ok (objects.get x.namespace x.name w) k h in
        let (found, ns, name) = stored.get_found x.namespace x.name w v latest got in
        let same = read_keeps x.namespace x.name w v got in
        let at_base : stored.at v latest.namespace latest.name ≡ stored.at w x.namespace x.name =
          λ i. same i (ns i) (name i) in
        elim (k-cases latest) [
          | inl (holds, idle) ↦
              let there : ◌≡◌ {A = Result (Unit {0}) × W} (ok tt, v) (ok tt, u) =
                sym (ap (λ f. f v) idle) ∙ rest in
              let kept : stored.at u ≡ stored.at w =
                subst (λ t. stored.at t ≡ stored.at w) (ap (λ t. t.1) there) same in
              (
                (latest, (λ i. kept i x.namespace x.name) ∙ found, holds),
                λ s. (s.0, (λ i. kept i y.namespace y.name) ∙ s.1, s.2),
              )
          | inr writes ↦
              let (gained, kept) =
                patched x y latest v u (at_base ∙ found) ns name
                  (sym (ap (λ f. f v) writes) ∙ rest) in
              (gained, λ s. kept (s.0, (λ i. same i y.namespace y.name) ∙ s.1, s.2))
        ]

    pub body-settled :
        (x : Workload) (w : W) → ((objects.get x.namespace x.name >>= k) w).0 ≢ err conflict
    body-settled x w =
        bind-settled (objects.get x.namespace x.name w) k (stored.get_settled x.namespace x.name w)
          (λ latest v. elim (k-cases latest) [
            | inl (holds, idle) ↦ λ q. idle-settled v (sym (ap (λ f. (f v).0) idle) ∙ q)
            | inr writes ↦ λ q.
                stored.patch_settled latest (change latest) v (sym (ap (λ f. (f v).0) writes) ∙ q)
          ])

    -- A retried call that succeeds is a run of the body.
    pub retried-StoredAs :
        (c : Client W) (laws : RetryLaws c) (x y : Workload) (w u : W)
        → c.retry_on_conflict (objects.get x.namespace x.name >>= k) w ≡ (ok tt, u)
        → StoredAs stored Q u x × (StoredAs stored Q w y → StoredAs stored Q u y)
    retried-StoredAs c laws x y w u h =
        body-StoredAs x y w u (sym (laws.retry_settled _ w (body-settled x w)) ∙ h)

-- The stored object has no replicas.
abbrev pub IsFrozen : Workload → Type 0
IsFrozen z = has_zero_replicas z.replicas ≡ true

-- The stored object bears no note of a freeze.
abbrev pub IsReleased : Workload → Type 0
IsReleased z = lookup annotation_original_replicas z.annotations ≡ none

-- The listed object bears one.
abbrev pub IsNoted : Workload → Type 0
IsNoted x = is_some (lookup annotation_original_replicas x.annotations) ≡ true

frozen_form-IsFrozen : (override : Option ℕ) (z : Workload) → IsFrozen (frozen_form override z)
unfolding frozen_form
frozen_form-IsFrozen override z = refl

pub restored_form-IsReleased : (count : ℤ) (z : Workload) → IsReleased (restored_form count z)
unfolding restored_form
restored_form-IsReleased count z =
    lookup-remove annotation_original_replicas annotation_original_replicas _

module _ {W : Type 0} (c : Client W) (laws : RetryLaws c) {objects : Objects W Workload}
    (stored : Stored objects) where
  -- A freeze that succeeds leaves its workload without replicas, and every other that was.
  pub freeze_once-StoredAs :
      (override : Option ℕ) (x y : Workload) (w u : W)
      → c.retry_on_conflict (freeze_once objects override x) w ≡ (ok tt, u)
      → StoredAs stored IsFrozen u x × (StoredAs stored IsFrozen w y → StoredAs stored IsFrozen u y)
  unfolding freeze_once
  freeze_once-StoredAs override x y w u h =
      retried-StoredAs stored IsFrozen (frozen_form override) (λ z. unfold frozen_form in refl)
        (λ z. unfold frozen_form in refl) (frozen_form-IsFrozen override)
        (λ z.
          if has_zero_replicas z.replicas
          then pure tt
          else objects.patch z (frozen_form override z))
        (λ z. elim (Bool-cases (has_zero_replicas z.replicas)) [
          | inl zero ↦ inl (zero, rw zero refl)
          | inr live ↦ inr (rw live refl)
        ])
        c laws x y w u h

-- ===== src/Workloads/RoundTrip.antt =====
-- What a resume makes of a frozen object.
use app_lifecycle_kubernetes.Base.{
  ℕ, String, false, Option, none, some, ◌≡◌, refl, ◌∙◌, arith, str_eq, str_eq_iff,
}
use app_lifecycle_kubernetes.Base.Int.{ℤ, pos, negsuc, to_int32-id, FitsInt32}
use app_lifecycle_kubernetes.Base.Dict.{Dict, lookup, insert, remove, lookup-insert, remove-insert}
use app_lifecycle_kubernetes.Base.Decimal.{itoa, atoi-itoa, itoa-ne-nil, FitsInt64}
use app_lifecycle_kubernetes.Kube.{Workload}
use app_lifecycle_kubernetes.Workloads.{
  annotation_original_replicas, annotation_original_grace, original_replicas, grace_note,
  frozen_form, restored_form, restored_grace,
}

abbrev pub GraceFits : Option ℤ → Type 0
GraceFits none = Unit {0}
GraceFits (some n) = FitsInt64 n

-- An object that the operator has left no notes on, with counts in their Go types.
pub record IsPlain (w : Workload) : Type 0 where
  pub no_count : lookup annotation_original_replicas w.annotations ≡ none
  pub no_grace : lookup annotation_original_grace w.annotations ≡ none
  pub count_fits : FitsInt32 (original_replicas w.replicas)
  pub grace_fits : GraceFits w.grace_period

pub FitsInt32→FitsInt64 : (z : ℤ) → FitsInt32 z → FitsInt64 z
FitsInt32→FitsInt64 (pos n) h = omega arith
FitsInt32→FitsInt64 (negsuc n) h = omega arith

keys_differ : str_eq annotation_original_grace annotation_original_replicas ≡ false
keys_differ = refl

-- The note of a frozen object is the count that it had.
pub frozen_form-note :
    (override : Option ℕ) (w : Workload)
    → lookup annotation_original_replicas (frozen_form override w).annotations
      ≡ some (itoa (original_replicas w.replicas))
unfolding frozen_form
frozen_form-note none w = rw (
    lookup-insert annotation_original_replicas annotation_original_replicas
      (itoa (original_replicas w.replicas)) w.annotations)
frozen_form-note (some s) w =
    rw
      (lookup-insert annotation_original_grace annotation_original_replicas
        (grace_note w.grace_period)
        (insert annotation_original_replicas (itoa (original_replicas w.replicas)) w.annotations))
      (rw (
        lookup-insert annotation_original_replicas annotation_original_replicas
          (itoa (original_replicas w.replicas)) w.annotations))

-- The grace period that a note stands for.
restored_grace-note :
    (grace now : Option ℤ) → GraceFits grace → restored_grace (some (grace_note grace)) now ≡ grace
restored_grace-note none now h = refl
restored_grace-note (some n) now h =
    ground (arith, str_eq_iff (itoa n) "nil", itoa-ne-nil n h, atoi-itoa n h)

abbrev noted : Workload → Dict String
noted w = insert annotation_original_replicas (itoa (original_replicas w.replicas)) w.annotations

noted-no_grace : (w : Workload) → IsPlain w → lookup annotation_original_grace (noted w) ≡ none
noted-no_grace w plain =
    lookup-insert annotation_original_replicas annotation_original_grace _ w.annotations
    ∙ plain.no_grace

noted-has_grace :
    (w : Workload) (note : String)
    → lookup annotation_original_grace (insert annotation_original_grace note (noted w)) ≡ some note
noted-has_grace w note =
    lookup-insert annotation_original_grace annotation_original_grace note (noted w)

noted-removed :
    (w : Workload) → IsPlain w → remove annotation_original_replicas (noted w) ≡ w.annotations
noted-removed w plain = remove-insert annotation_original_replicas _ w.annotations plain.no_count

-- A resume with the noted count gives back the object as it was before the freeze, its grace period
-- and its annotations included, whether or not the grace period was overridden; an absent replica
-- count comes back as 1, its default.
pub restored_form-frozen_form :
    (override : Option ℕ) (w : Workload)
    → IsPlain w
    → restored_form (original_replicas w.replicas) (frozen_form override w)
      ≡ record w { replicas = some (original_replicas w.replicas) }
unfolding restored_form frozen_form
restored_form-frozen_form none w plain =
    rw (noted-no_grace w plain)
      (rw (noted-removed w plain, to_int32-id (original_replicas w.replicas) plain.count_fits))
restored_form-frozen_form (some s) w plain = rw (noted-has_grace w (grace_note w.grace_period)) (
    rw (
      remove-insert annotation_original_grace (grace_note w.grace_period) (noted w)
          (noted-no_grace w plain),
      noted-removed w plain,
      to_int32-id (original_replicas w.replicas) plain.count_fits,
      restored_grace-note w.grace_period (some (pos s)) plain.grace_fits,
    ))

-- An object that is frozen with an override, scaled up by somebody else and frozen again with the same
-- override keeps the override after a resume: the note of its original grace period was overwritten.
pub refreeze_loses_grace :
    (seconds : ℕ) (replicas count : ℤ) (w : Workload)
    → FitsInt64 (pos seconds)
    → let scaled_up = record (frozen_form (some seconds) w) { replicas = some replicas } in
      (restored_form count (frozen_form (some seconds) scaled_up)).grace_period ≡ some (pos seconds)
unfolding restored_form frozen_form
refreeze_loses_grace seconds replicas count w fits =
    rw (lookup-insert annotation_original_grace annotation_original_grace (itoa (pos seconds)) _)
      (restored_grace-note (some (pos seconds)) (some (pos seconds)) fits)

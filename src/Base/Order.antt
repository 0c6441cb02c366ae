-- ===== src/Base/Order.antt =====
-- The order of texts, by their characters from the left.
use Prim.Native.Nat.{ℕ, Ordering, compare as compare_ℕ}
use Prim.Native.Char.{code}
use Prim.Native.String.compare as cmp
use Prim.Native.String.{String, compare, then}
use mathlib.Core.Path.{◌≡◌, refl}
use mathlib.Core.Logic.{◌≢◌, ◌⊎◌, inl, inr}
use mathlib.Core.Bool.{Bool, true, false}
use native.Mathlib.Omega.{arith}
use text.Mathlib.TextEquality.{path_by_compare}

abbrev pub is_gt : Ordering → Bool
is_gt Ordering.gt = true
is_gt _ = false

-- `s > t`
abbrev pub text_gt : String → String → Bool
text_gt s t = is_gt (compare s t)

abbrev pub flip : Ordering → Ordering
flip Ordering.lt = Ordering.gt
flip Ordering.eq = Ordering.eq
flip Ordering.gt = Ordering.lt

compare_ℕ-flip : (a b : ℕ) → compare_ℕ b a ≡ flip (compare_ℕ a b)
compare_ℕ-flip a b = ground arith

then-flip : (a b : Ordering) → then (flip a) (flip b) ≡ flip (then a b)
then-flip Ordering.lt b = refl
then-flip Ordering.eq b = refl
then-flip Ordering.gt b = refl

compare-flip : (s t : String) → compare t s ≡ flip (compare s t)
compare-flip String.[] String.[] = refl
compare-flip String.[] (String.◌∷◌ d t) = rw (cmp.cons-nil d t, cmp.nil-cons d t)
compare-flip (String.◌∷◌ c s) String.[] = rw (cmp.nil-cons c s, cmp.cons-nil c s)
compare-flip (String.◌∷◌ c s) (String.◌∷◌ d t) =
    rw
      (
        cmp.cons-cons d c t s,
        cmp.cons-cons c d s t,
        compare_ℕ-flip (code c) (code d),
        compare-flip s t,
      )
      (then-flip _ _)

is_gt-flip : (o : Ordering) → is_gt o ≡ true → is_gt (flip o) ≡ false
is_gt-flip Ordering.lt h = cc
is_gt-flip Ordering.eq h = refl
is_gt-flip Ordering.gt h = refl

is_gt_or_flip : (o : Ordering) → o ≢ Ordering.eq → (is_gt o ≡ true) ⊎ (is_gt (flip o) ≡ true)
is_gt_or_flip Ordering.lt h = inr refl
is_gt_or_flip Ordering.eq h = absurd (h refl)
is_gt_or_flip Ordering.gt h = inl refl

-- Of two texts at most one is greater than the other, and of two different ones exactly one is.
pub text_gt-asym : (s t : String) → text_gt s t ≡ true → text_gt t s ≡ false
text_gt-asym s t h = rw (compare-flip s t) (is_gt-flip _ h)

pub text_gt-total : (s t : String) → s ≢ t → (text_gt s t ≡ true) ⊎ (text_gt t s ≡ true)
text_gt-total s t ne =
    rw (compare-flip s t) (is_gt_or_flip (compare s t) (λ e. ne (path_by_compare s t e)))

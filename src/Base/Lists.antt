-- ===== src/Base/Lists.antt =====
-- Lists measured by native numbers, Boolean quantifiers over them, and predicates by recursion.
use Prim.Native.Nat.{ℕ, zero, suc, ◌+◌, ◌-◌, ◌≤◌, min}
use mathlib.Core.Path.{◌≡◌, refl, ap}
use mathlib.Core.Bool.{Bool, true, false, ◌&&◌, ◌||◌}
use mathlib.Core.List.{List, [], ◌∷◌, ◌++◌}
use native.Mathlib.Omega.{arith}
use native.Mathlib.Nat.{zero-add, add-zero, suc-add}
use app_lifecycle_kubernetes.Base.Tests.{if◌then◌else◌}

min_zero_left : (m : ℕ) → min 0 m ≡ 0
min_zero_left m = omega arith

min_zero_right : (m : ℕ) → min m 0 ≡ 0
min_zero_right m = omega arith

min-suc-suc : (k m : ℕ) → min (suc k) (suc m) ≡ suc (min k m)
min-suc-suc k m = omega arith

module _ {ℓ} {A : Type ℓ} where
  abbrev pub length : List A → ℕ
  length [] = 0
  length (x ∷ xs) = suc (length xs)

  abbrev pub take : ℕ → List A → List A
  take zero xs = []
  take (suc n) [] = []
  take (suc n) (x ∷ xs) = x ∷ take n xs

  abbrev pub drop : ℕ → List A → List A
  drop zero xs = xs
  drop (suc n) [] = []
  drop (suc n) (x ∷ xs) = drop n xs

  abbrev pub any : (A → Bool) → List A → Bool
  any p [] = false
  any p (x ∷ xs) = p x || any p xs

  abbrev pub all : (A → Bool) → List A → Bool
  all p [] = true
  all p (x ∷ xs) = p x && all p xs

  abbrev pub keep : (A → Bool) → List A → List A
  keep p [] = []
  keep p (x ∷ xs) = let rest = keep p xs in if p x then x ∷ rest else rest

  -- How many elements pass the test.
  abbrev pub count_if : (A → Bool) → List A → ℕ
  count_if p [] = 0
  count_if p (x ∷ xs) = let rest = count_if p xs in if p x then suc rest else rest

  -- Membership with its position kept.
  pub data In (a : A) : List A → Type ℓ where
    here : {x : A} {xs : List A} → a ≡ x → In a (x ∷ xs)
    there : {x : A} {xs : List A} → In a xs → In a (x ∷ xs)

  pub length-append : (xs ys : List A) → length (xs ++ ys) ≡ length xs + length ys
  length-append [] ys = omega arith
  length-append (x ∷ xs) ys = omega (arith, length-append xs ys)

  pub length-drop : (n : ℕ) (xs : List A) → length (drop n xs) ≡ length xs - n
  length-drop zero xs = omega arith
  length-drop (suc n) [] = omega arith
  length-drop (suc n) (x ∷ xs) = omega (arith, length-drop n xs)

  pub take-append-drop : (n : ℕ) (xs : List A) → take n xs ++ drop n xs ≡ xs
  take-append-drop zero xs = refl
  take-append-drop (suc n) [] = refl
  take-append-drop (suc n) (x ∷ xs) = ap (λ t. x ∷ t) (take-append-drop n xs)

  pub length-take : (n : ℕ) (xs : List A) → length (take n xs) ≡ min n (length xs)
  length-take zero xs = omega arith
  length-take (suc n) [] = omega arith
  length-take (suc n) (x ∷ xs) = omega (arith, length-take n xs)

  -- Taking a part and then some more is taking them together.
  pub take-append-take : (r j : ℕ) (xs : List A) → take r xs ++ take j (drop r xs) ≡ take (r + j) xs
  take-append-take zero j xs = rw zero-add
  take-append-take (suc r) zero [] = rw add-zero
  take-append-take (suc r) (suc j) [] = rw suc-add
  take-append-take (suc r) j (x ∷ xs) = rw suc-add (ap (λ t. x ∷ t) (take-append-take r j xs))

  pub take-take : (k m : ℕ) (xs : List A) → take k (take m xs) ≡ take (min k m) xs
  take-take zero m xs = rw min_zero_left
  take-take (suc k) zero xs = rw min_zero_right
  take-take (suc k) (suc m) [] = rw min-suc-suc
  take-take (suc k) (suc m) (x ∷ xs) = rw min-suc-suc (ap (λ t. x ∷ t) (take-take k m xs))

  pub take_all : (n : ℕ) (xs : List A) → length xs ≤ n → take n xs ≡ xs
  take_all zero [] h = refl
  take_all zero (x ∷ xs) h = elim h [ ]
  take_all (suc n) [] h = refl
  take_all (suc n) (x ∷ xs) h = ap (λ t. x ∷ t) (take_all n xs (omega arith))

module _ {ℓ} {A : Type ℓ} where
  -- Every element has a property.
  abbrev pub Every : (A → Type 0) → List A → Type 0
  Every P [] = Unit {0}
  Every P (x ∷ xs) = P x × Every P xs

  pub Every-append :
      (P : A → Type 0) (xs ys : List A) → Every P xs → Every P ys → Every P (xs ++ ys)
  Every-append P [] ys p q = q
  Every-append P (x ∷ xs) ys (h, p) q = (h, Every-append P xs ys p q)

  pub Every-parts : (P : A → Type 0) (xs ys : List A) → Every P (xs ++ ys) → Every P xs × Every P ys
  Every-parts P [] ys p = (tt, p)
  Every-parts P (x ∷ xs) ys (h, p) =
      let (before, after) = Every-parts P xs ys p in ((h, before), after)

  pub Every-map : (P Q : A → Type 0) (xs : List A) → ((x : A) → P x → Q x) → Every P xs → Every Q xs
  Every-map P Q [] f p = tt
  Every-map P Q (x ∷ xs) f (h, p) = (f x h, Every-map P Q xs f p)

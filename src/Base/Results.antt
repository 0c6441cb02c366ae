-- ===== src/Base/Results.antt =====
-- Go's `(value, error)` results, and operations that act on a world: the cluster, the clock and all
-- that other programs do to it between two calls. An error keeps the effects made before it.
use mathlib.Core.Path.{◌≡◌, refl, subst}
use mathlib.Core.Logic.{◌⊎◌, inl, inr}
use Prim.Native.String.{String}

-- `not_found` and `conflict` are the API errors that the source asks for, `canceled` is a context's,
-- `wrapped` is `%w`, and `panicked` is no error but the end of the program by a fault.
pub data Error : Type 0 where
  not_found conflict canceled : Error
  message panicked : String → Error
  wrapped : String → Error → Error

pub data Result {ℓ} (A : Type ℓ) : Type ℓ where
  ok : A → Result A
  err : Error → Result A

abbrev pub Action : Type 0 → Type 0 → Type 0
Action W A = W → Result A × W

abbrev pub pure : {W A : Type 0} → A → Action W A
pure a w = (ok a, w)

abbrev pub throw : {W A : Type 0} → Error → Action W A
throw e w = (err e, w)

-- What follows a call, by its result: the `if err != nil` of the source.
abbrev pub and_then : {W A B : Type 0} → Result A × W → (A → Action W B) → Result B × W
and_then (ok a, w) f = f a w
and_then (err e, w) f = (err e, w)

infixl 5 ◌>>=◌ ◌>>◌
abbrev pub ◌>>=◌ : {W A B : Type 0} → Action W A → (A → Action W B) → Action W B
◌>>=◌ m f w = and_then (m w) f

abbrev pub ◌>>◌ : {W B : Type 0} → Action W (Unit {0}) → Action W B → Action W B
m >> k = m >>= λ _. k

-- The result with its error wrapped, `fmt.Errorf("…: %w", err)`.
abbrev pub wrap_error : {A : Type 0} → String → Result A → Result A
wrap_error s (ok a) = ok a
wrap_error s (err e) = err (wrapped s e)

abbrev pub wrapping : {W A : Type 0} → String → Action W A → Action W A
wrapping s m w = let (r, w') = m w in (wrap_error s r, w')

-- The effects of a call whose error is only logged.
abbrev pub logged : {W : Type 0} → Action W (Unit {0}) → W → W
logged m w = (m w).1

pub Result-cases {ℓ} :
    {A : Type ℓ} (r : Result A) → ((a : A) × (r ≡ ok a)) ⊎ ((e : Error) × (r ≡ err e))
Result-cases (ok a) = inl (a, refl)
Result-cases (err e) = inr (e, refl)

-- What a call answers, and the world it leaves, have a property, where it answers at all; an error
-- meets it too.
abbrev pub Yields : {W A : Type 0} → (A → W → Type 0) → Action W A → W → Type 0
Yields {W = W} {A = A} P m w = (a : A) (v : W) → m w ≡ (ok a, v) → P a v

ok-inj :
    {W A : Type 0} {a b : A} {v w : W}
    → ◌≡◌ {A = Result A × W} (ok a, v) (ok b, w)
    → ◌≡◌ {A = A × W} (a, v) (b, w)
ok-inj e = cc

err-ne-ok :
    {W A : Type 0} {x : Error} {b : A} {v w : W} → ◌≡◌ {A = Result A × W} (err x, v) (ok b, w) → ⊥
err-ne-ok e = cc

-- A call that answers, and what follows it, both answered.
pub and_then-ok :
    {W A B : Type 0} (r : Result A × W) (f : A → Action W B) {b : B} {u : W}
    → and_then r f ≡ (ok b, u)
    → (a : A) × (v : W) × (r ≡ (ok a, v)) × (f a v ≡ (ok b, u))
and_then-ok (ok a, v) f h = (a, v, refl, h)
and_then-ok (err e, v) f h = cc h

pub pure-Yields :
    {W A : Type 0} (P : A → W → Type 0) (a : A) (w : W) → P a w → Yields P (pure {W = W} a) w
pure-Yields P a w p b v e = subst (λ t. P t.0 t.1) (ok-inj e) p

and_then-Yields :
    {W A B : Type 0} {Q : A → W → Type 0} {P : B → W → Type 0} (r : Result A × W)
    (f : A → Action W B)
    → ((a : A) (v : W) → r ≡ (ok a, v) → Q a v)
    → ((a : A) (v : W) → Q a v → Yields P (f a) v)
    → (b : B) (v : W) → and_then r f ≡ (ok b, v)
    → P b v
and_then-Yields (ok a, w) f q k b v e = k a w (q a w refl) b v e
and_then-Yields (err x, w) f q k b v e = elim (err-ne-ok e) [ ]

pub bind-Yields :
    {W A B : Type 0} (Q : A → W → Type 0) (P : B → W → Type 0) (m : Action W A) (f : A → Action W B)
    (w : W)
    → Yields Q m w
    → ((a : A) (v : W) → Q a v → Yields P (f a) v)
    → Yields P (m >>= f) w
bind-Yields Q P m f w q k = and_then-Yields (m w) f q k

-- Wrapping an error changes nothing of an answer.
wrap-Yields :
    {W A : Type 0} {P : A → W → Type 0} (s : String) (r : Result A × W)
    → ((a : A) (v : W) → r ≡ (ok a, v) → P a v)
    → (a : A) (v : W) → ◌≡◌ {A = Result A × W} (wrap_error s r.0, r.1) (ok a, v)
    → P a v
wrap-Yields s (ok x, w) p a v e = p a v e
wrap-Yields s (err x, w) p a v e = elim (err-ne-ok e) [ ]

pub wrapping-Yields :
    {W A : Type 0} (P : A → W → Type 0) (s : String) (m : Action W A) (w : W)
    → Yields P m w
    → Yields P (wrapping s m) w
wrapping-Yields P s m w p = wrap-Yields s (m w) p

-- A call and a function of what it answers.
pub answered :
    {W A B : Type 0} (m : Action W A) (f : A → B) (P : B → Type 0) (w : W)
    → ((a : A) → P (f a))
    → Yields (λ b _. P b) (m >>= λ a. pure (f a)) w
answered m f P w p =
    bind-Yields (λ _ _. Unit {0}) (λ b _. P b) m (λ a. pure (f a)) w (λ _ _ _. tt)
      (λ a u _. pure-Yields (λ b _. P b) (f a) u (p a))

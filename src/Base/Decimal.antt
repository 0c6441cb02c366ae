-- ===== src/Base/Decimal.antt =====
-- Go's `strconv.Itoa` / `FormatInt` and `Atoi` / `ParseInt` in base 10, and that reading undoes
-- writing.
use Prim.Native.Char.{Char, code}
use Prim.Native.Nat.{ℕ, zero, suc, ◌+◌, ◌-◌, ◌*◌, ◌/◌, ◌%◌, ◌<◌, ◌≤◌}
use Prim.Native.String.{String}
use mathlib.Core.Path.{◌≡◌, refl, sym, ap, ◌∙◌}
use mathlib.Core.Logic.{◌≢◌, inl, inr}
use mathlib.Core.Bool.{Bool, true, ◌||◌}
use mathlib.Core.Option.{Option, none, some}
use mathlib.Core.List.{List, [], ◌∷◌}
use native.Mathlib.Omega.{arith}
use app_lifecycle_kubernetes.Base.Lists.{all}
use app_lifecycle_kubernetes.Base.Tests.{ltb, ◌==◌, if◌then◌else◌, Bool-cases}
use app_lifecycle_kubernetes.Base.Int.{ℤ, pos, negsuc}

-- The character of a digit below ten.
abbrev digit : ℕ → Char
digit d =
    if d == 0
    then "0"
    else if d == 1
    then "1"
    else if d == 2
    then "2"
    else if d == 3
    then "3"
    else if d == 4
    then "4"
    else if d == 5
    then "5"
    else if d == 6
    then "6"
    else if d == 7
    then "7"
    else if d == 8
    then "8"
    else "9"

-- The digits of `n` in front of `out`; fuel above `n` is enough, since each round divides by ten.
emit : ℕ → ℕ → String → String
emit zero n out = out
emit (suc fuel) n out =
    let rest = emit fuel (n / 10) (String.◌∷◌ (digit (n % 10)) out) in
    if ltb n 10 then String.◌∷◌ (digit n) out else rest

unfoldable pub format_unsigned : ℕ → String
unfolding emit
format_unsigned n = emit (suc n) n ""

unfoldable pub itoa : ℤ → String
unfolding format_unsigned
itoa (pos n) = format_unsigned n
itoa (negsuc n) = String.◌∷◌ "-" (format_unsigned (suc n))

abbrev pub number : ℕ → String
number n = itoa (pos n)

read_digits : String → ℕ → Option ℕ
read_digits String.[] n = some n
read_digits (String.◌∷◌ c s) n =
    if ltb (code c) 48 || ltb 57 (code c) then none else read_digits s (n * 10 + (code c - 48))

-- The sign in front of a magnitude, with the range of int64.
abbrev positive : Option ℕ → Option ℤ
positive none = none
positive (some n) = if ltb n 9223372036854775808 then some (pos n) else none

abbrev negative : Option ℕ → Option ℤ
negative none = none
negative (some zero) = some (pos 0)
negative (some (suc n)) = if ltb n 9223372036854775808 then some (negsuc n) else none

read_unsigned : String → Option ℕ
unfolding read_digits
read_unsigned String.[] = none
read_unsigned (String.◌∷◌ c s) = read_digits (String.◌∷◌ c s) 0

unfoldable pub atoi : String → Option ℤ
unfolding read_unsigned
atoi String.[] = none
atoi (String.◌∷◌ c s) =
    if code c == 45
    then negative (read_unsigned s)
    else if code c == 43
    then positive (read_unsigned s)
    else positive (read_unsigned (String.◌∷◌ c s))

abbrev pub FitsInt64 : ℤ → Type 0
FitsInt64 (pos n) = n < 9223372036854775808
FitsInt64 (negsuc n) = n < 9223372036854775808

-- The numbers below a bound, the largest first.
abbrev numbers_below : ℕ → List ℕ
numbers_below zero = []
numbers_below (suc k) = k ∷ numbers_below k

-- Of a list of numbers, those before a bound are reached by evaluation.
pick_below :
    (test : ℕ → Bool) {bound : ℕ} (d : ℕ)
    → d < bound
    → all test (numbers_below bound) ≡ true
    → test d ≡ true
pick_below test {bound = zero} d small every = elim small [ ]
pick_below test {bound = suc k} d small every = ground (arith, pick_below test {bound = k} d)

abbrev digit_fits : ℕ → Bool
digit_fits d = code (digit d) == 48 + d

same_number : (a : ℕ) {b : ℕ} → (a == b) ≡ true → a ≡ b
same_number a equal = ground arith

code-digit : (d : ℕ) → d < 10 → code (digit d) ≡ 48 + d
code-digit d small = same_number (code (digit d)) (pick_below digit_fits d small refl)

read_digits-digit :
    (d n : ℕ) (out : String)
    → d < 10
    → read_digits (String.◌∷◌ (digit d) out) n ≡ read_digits out (n * 10 + d)
unfolding read_digits
read_digits-digit d n out h =
    let e : code (digit d) ≡ 48 + d = code-digit d h in rw e (ground arith)

-- Reading what `emit` writes gives the number and goes on behind it.
read_digits-emit :
    (fuel n : ℕ) (out : String) → n < fuel → read_digits (emit fuel n out) 0 ≡ read_digits out n
unfolding emit
read_digits-emit zero n out h = elim h [ ]
read_digits-emit (suc fuel) n out h = elim (Bool-cases (ltb n 10)) [
  | inl small ↦
      rw small (read_digits-digit n 0 out (ground arith) ∙ ap (read_digits out) (omega arith))
  | inr large ↦ rw large (
      read_digits-emit fuel (n / 10) _ (ground arith)
      ∙ read_digits-digit (n % 10) (n / 10) out (omega arith)
      ∙ ap (read_digits out) (omega arith))
]

-- A text that begins with a digit.
abbrev StartsWithDigit : String → Type 0
StartsWithDigit String.[] = ⊥
StartsWithDigit (String.◌∷◌ c s) = 48 ≤ code c

emit-StartsWithDigit : (fuel n : ℕ) (out : String) → n < fuel → StartsWithDigit (emit fuel n out)
unfolding emit
emit-StartsWithDigit zero n out h = elim h [ ]
emit-StartsWithDigit (suc fuel) n out h = elim (Bool-cases (ltb n 10)) [
  | inl small ↦ rw small (rw (code-digit n (ground arith)) (omega arith))
  | inr large ↦ rw large (emit-StartsWithDigit fuel (n / 10) _ (ground arith))
]

read_unsigned-digits : (s : String) → StartsWithDigit s → read_unsigned s ≡ read_digits s 0
unfolding read_unsigned
read_unsigned-digits String.[] h = elim h [ ]
read_unsigned-digits (String.◌∷◌ c s) h = refl

read_unsigned-format : (n : ℕ) → read_unsigned (format_unsigned n) ≡ some n
unfolding format_unsigned
read_unsigned-format n =
    read_unsigned-digits _ (emit-StartsWithDigit (suc n) n "" (omega arith))
    ∙ read_digits-emit (suc n) n "" (omega arith)
    ∙ unfold read_digits in refl

atoi-digits : (s : String) → StartsWithDigit s → atoi s ≡ positive (read_unsigned s)
unfolding atoi
atoi-digits String.[] h = elim h [ ]
atoi-digits (String.◌∷◌ c s) h = ground arith

-- `Atoi` reads back what `Itoa` wrote, over the whole range of int64.
pub atoi-itoa : (z : ℤ) → FitsInt64 z → atoi (itoa z) ≡ some z
unfolding itoa
atoi-itoa (pos n) h =
    atoi-digits _ (unfold format_unsigned in emit-StartsWithDigit (suc n) n "" (omega arith))
    ∙ rw (read_unsigned-format n) (ground arith)
atoi-itoa (negsuc n) h = unfold atoi in rw (read_unsigned-format (suc n)) (ground arith)

not-read-nil : atoi "nil" ≡ none
unfolding atoi
not-read-nil = refl

-- No written number is the word that stands for an absent one.
pub itoa-ne-nil : (z : ℤ) → FitsInt64 z → itoa z ≢ "nil"
itoa-ne-nil z h e = cc (sym (atoi-itoa z h) ∙ ap atoi e ∙ not-read-nil)

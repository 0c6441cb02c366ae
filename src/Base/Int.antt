-- ===== src/Base/Int.antt =====
-- Signed integers over the native numbers, and Go's conversions to int32 and int64 and its division.
use Prim.Native.Nat.{ℕ, zero, suc, ◌+◌, ◌-◌, ◌*◌, ◌/◌, ◌%◌, ◌<◌}
use mathlib.Core.Path.{◌≡◌}
use mathlib.Core.Bool.{Bool, false}
use native.Mathlib.Omega.{arith}
use app_lifecycle_kubernetes.Base.Tests.{ltb, ◌==◌, if◌then◌else◌}

-- `negsuc n` is -(n + 1).
pub data ℤ : Type 0 where
  pos : ℕ → ℤ
  negsuc : ℕ → ℤ

abbrev pub is_zero : ℤ → Bool
is_zero (pos n) = n == 0
is_zero (negsuc n) = false

-- The two's complement value of the low 32 bits of a bit pattern.
abbrev pub signed32 : ℕ → ℤ
signed32 n = if ltb n 2147483648 then pos n else negsuc (4294967295 - n)

-- `int32(x)`: the low 32 bits.
unfoldable pub to_int32 : ℤ → ℤ
to_int32 (pos n) = signed32 (n % 4294967296)
to_int32 (negsuc n) = signed32 (4294967295 - n % 4294967296)

abbrev pub FitsInt32 : ℤ → Type 0
FitsInt32 (pos n) = n < 2147483648
FitsInt32 (negsuc n) = n < 2147483648

-- An int32 value is unchanged by the conversion.
pub to_int32-id : (z : ℤ) → FitsInt32 z → to_int32 z ≡ z
unfolding to_int32
to_int32-id (pos n) h = ground arith
to_int32-id (negsuc n) h = ground arith

-- `int64(x)` of a natural number, and its negative for `negsuc`.
unfoldable pub to_int64 : ℤ → ℤ
to_int64 (pos n) =
    let low = n % 18446744073709551616 in
    if ltb low 9223372036854775808 then pos low else negsuc (18446744073709551615 - low)
to_int64 (negsuc n) =
    let low = 18446744073709551615 - n % 18446744073709551616 in
    if ltb low 9223372036854775808 then pos low else negsuc (18446744073709551615 - low)

abbrev opposite : ℕ → ℤ
opposite zero = pos 0
opposite (suc n) = negsuc n

-- Go's division, which rounds towards zero.
abbrev pub quotient : ℤ → ℕ → ℤ
quotient (pos a) b = pos (a / b)
quotient (negsuc a) b = opposite (suc a / b)

abbrev pub hundredfold : ℤ → ℤ
hundredfold (pos n) = pos (n * 100)
hundredfold (negsuc n) = negsuc (n * 100 + 99)

-- `a - b`, as a signed number.
abbrev less : ℕ → ℕ → ℤ
less a b = if ltb a b then opposite (b - a) else pos (a - b)

infixl 6 ◌+ℤ◌
abbrev pub ◌+ℤ◌ : ℤ → ℤ → ℤ
pos a +ℤ pos b = pos (a + b)
pos a +ℤ negsuc b = less a (suc b)
negsuc a +ℤ pos b = less b (suc a)
negsuc a +ℤ negsuc b = negsuc (suc (a + b))

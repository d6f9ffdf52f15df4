-- ===== src/Prelude/Number.antt =====
-- JavaScript numbers as the code's guards see them. `integer` carries the value of a number that
-- `Number.isInteger` accepts; `other` stands for every number that it rejects (a fraction, NaN or
-- an infinity). Each test below is read only behind `Number.isInteger` or `Number.isSafeInteger`,
-- so what the other tests give at `other` never shows.
use Prim.Native.Nat.{ℕ}
use mathlib.Core.Bool.{Bool, true, false}
use lovechapter.Prelude.Tests.{ltb, leb, ◌==◌}

-- `negsuc n` is -(n + 1).
pub data ℤ : Type 0 where
  pos : ℕ → ℤ
  negsuc : ℕ → ℤ

pub data Number : Type 0 where
  integer : ℤ → Number
  other : Number

abbrev pub whole : ℕ → Number
whole n = integer (pos n)

abbrev pub is_integer : Number → Bool
is_integer (integer z) = true
is_integer other = false

-- 2 ^ 53 - 1
abbrev pub max_safe_integer : ℕ
max_safe_integer = 9007199254740991

abbrev pub is_safe_integer : Number → Bool
is_safe_integer (integer (pos n)) = leb n max_safe_integer
is_safe_integer (integer (negsuc n)) = ltb n max_safe_integer
is_safe_integer other = false

-- `value < bound`
abbrev pub below : Number → ℕ → Bool
below (integer (pos n)) b = ltb n b
below (integer (negsuc n)) b = true
below other b = false

-- `value > bound`
abbrev pub above : Number → ℕ → Bool
above (integer (pos n)) b = ltb b n
above (integer (negsuc n)) b = false
above other b = false

-- `value !== bound`
abbrev pub differs : Number → ℕ → Bool
differs (integer (pos n)) b = elim (n == b) [ true ↦ false | false ↦ true ]
differs (integer (negsuc n)) b = true
differs other b = true

-- `a > b`
abbrev pub exceeds : Number → Number → Bool
exceeds (integer (pos a)) (integer (pos b)) = ltb b a
exceeds (integer (pos a)) (integer (negsuc b)) = true
exceeds (integer (negsuc a)) (integer (pos b)) = false
exceeds (integer (negsuc a)) (integer (negsuc b)) = ltb a b
exceeds other b = false
exceeds (integer a) other = false

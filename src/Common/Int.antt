-- ===== src/Common/Int.antt =====
-- Go's `int` on a 64-bit machine: the values that reach the codecs may be negative.
use Prim.Native.Nat.{ℕ, ◌+◌, ◌-◌, ◌%◌, ◌^◌, ◌<◌}
use mathlib.Core.Bool.{Bool, true, false}
use mathlib.Core.Path.{◌≡◌, refl}
use native.Mathlib.Omega.{arith}
use sgsp.Common.Tests.{ltb, leb, if◌then◌else◌}

-- `negsuc n` is -(n + 1).
pub data ℤ : Type 0 where
  pos : ℕ → ℤ
  negsuc : ℕ → ℤ

abbrev pub IsInt : ℤ → Type 0
IsInt (pos n) = n < 2 ^ 63
IsInt (negsuc n) = n < 2 ^ 63

abbrev pub is_neg : ℤ → Bool
is_neg (pos n) = false
is_neg (negsuc n) = true

-- `len(s) > i`
abbrev pub exceeds : ℕ → ℤ → Bool
exceeds n (pos m) = ltb m n
exceeds n (negsuc m) = true

-- `i + k`, which wraps round above the largest int.
abbrev pub add_int : ℤ → ℕ → ℤ
add_int (pos n) k = if ltb (n + k) (2 ^ 63) then pos (n + k) else negsuc (2 ^ 64 - 1 - (n + k))
add_int (negsuc n) k = if leb k n then negsuc (n - k) else pos (k - n - 1)

-- `uint64(i)`
abbrev pub to_u64 : ℤ → ℕ
to_u64 (pos n) = n % 2 ^ 64
to_u64 (negsuc n) = 2 ^ 64 - 1 - n

-- `i < j`
abbrev pub less : ℤ → ℤ → Bool
less (pos a) (pos b) = ltb a b
less (pos a) (negsuc b) = false
less (negsuc a) (pos b) = true
less (negsuc a) (negsuc b) = ltb b a

-- The int that 64 bits stand for.
abbrev pub wrap_int : ℕ → ℤ
wrap_int n = let m = n % 2 ^ 64 in if ltb m (2 ^ 63) then pos m else negsuc (2 ^ 64 - 1 - m)

-- `i - j`: only a difference of two ints with different signs can wrap round.
abbrev pub sub_int : ℤ → ℤ → ℤ
sub_int (pos a) (pos b) = if leb b a then pos (a - b) else negsuc (b - a - 1)
sub_int (pos a) (negsuc b) = add_int (pos a) (b + 1)
sub_int (negsuc a) (pos b) =
    if ltb (a + b) (2 ^ 63) then negsuc (a + b) else pos (2 ^ 64 - 1 - (a + b))
sub_int (negsuc a) (negsuc b) = if leb a b then pos (b - a) else negsuc (a - b - 1)

-- A length that does not exceed `i` shows that `i` is not negative, and fits `uint64(i)` too.
pub not_neg : (n : ℕ) (m : ℤ) → exceeds n m ≡ false → is_neg m ≡ false
not_neg n (pos m) h = refl
not_neg n (negsuc m) h = cc

pub inside_u64 : (n : ℕ) (m : ℤ) → IsInt m → exceeds n m ≡ false → ltb (to_u64 m) n ≡ false
inside_u64 n (pos m) i h = ground arith
inside_u64 n (negsuc m) i h = cc

-- And the other way, when `i` is not negative.
pub within_int :
    (n : ℕ) (m : ℤ) → IsInt m → is_neg m ≡ false → ltb (to_u64 m) n ≡ false → exceeds n m ≡ false
within_int n (pos m) i g h = ground arith
within_int n (negsuc m) i g h = cc

-- The value of an int that is not negative.
abbrev pub to_ℕ : ℤ → ℕ
to_ℕ (pos n) = n
to_ℕ (negsuc n) = 0

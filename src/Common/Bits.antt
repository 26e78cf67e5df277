-- ===== src/Common/Bits.antt =====
-- Masks, tags and joins of bytes as plain arithmetic.
use Prim.Native.Nat.{
  ℕ, zero, suc, ◌+◌, ◌*◌, ◌/◌, ◌%◌, ◌≤◌, ◌<◌, max, bit_and, bit_or, digits, bit_or-bitwise,
}
use mathlib.Core.Path.{◌≡◌, refl, ap, subst}
use mathlib.Core.Logic.{inl, inr}
use mathlib.Core.Bool.{Bool, true, false}
use native.Mathlib.Omega.{arith}
use sgsp.Common.Tests.{◌==◌, ==_iff, ltb, ltb→lt, if◌then◌else◌, Bool-cases}

-- The bits of a disjunction, over any number of digits that covers the first operand.
abbrev or_bits : ℕ → ℕ → ℕ → ℕ
or_bits = digits (λ d. d) max

or_bits_enough : (a w v b : ℕ) → a ≤ w → a ≤ v → or_bits w a b ≡ or_bits v a b
or_bits_enough zero zero zero b h k = refl
or_bits_enough zero zero (suc v) b h k = refl
or_bits_enough zero (suc w) zero b h k = refl
or_bits_enough zero (suc w) (suc v) b h k = refl
or_bits_enough (suc a) zero v b h k = absurd (omega arith)
or_bits_enough (suc a) (suc w) zero b h k = absurd (omega arith)
or_bits_enough (suc a) (suc w) (suc v) b h k =
    let c = suc a / 2 in rw (or_bits_enough c w v (b / 2) (omega arith) (omega arith)) refl

or_halves : (a b : ℕ) → bit_or a b ≡ max (a % 2) (b % 2) + 2 * bit_or (a / 2) (b / 2)
or_halves zero b = omega (bit_or-bitwise zero (b / 2), arith, bit_or-bitwise zero b)
or_halves (suc a) b =
    let c = suc a / 2 in
    let same = or_bits_enough c a c (b / 2) (omega arith) (omega arith) in
    omega (same, bit_or-bitwise c (b / 2), bit_or-bitwise (suc a) b, arith)

or_nothing : (w a : ℕ) → a ≤ w → bit_or a 0 ≡ a
or_nothing w zero h = refl
or_nothing zero (suc a) h = absurd (omega arith)
or_nothing (suc w) (suc a) h =
    let rest = or_nothing w (suc a / 2) (omega arith) in omega (rest, or_halves (suc a) 0, arith)

-- A multiple of `m` and a number below `m` have no digit in common.
abbrev Joins : ℕ → Type 0
Joins m = (a b : ℕ) → b < m → bit_or (a * m) b ≡ a * m + b

Joins-one : Joins 1
Joins-one a zero h = omega (arith, or_nothing (a * 1) (a * 1) (omega arith))
Joins-one a (suc b) h = absurd (omega arith)

Joins-double : (m : ℕ) → Joins m → Joins (2 * m)
Joins-double m f a b h = omega (
  arith,
  or_halves (a * (2 * m)) b,
  ap (λ (t : ℕ). bit_or t (b / 2)) (halved a),
  f a (b / 2) (omega arith),
)
  where
    halved : (a : ℕ) → a * (2 * m) / 2 ≡ a * m
    halved a = omega arith

Joins-16 : Joins 16
Joins-16 = Joins-double 8 (Joins-double 4 (Joins-double 2 (Joins-double 1 Joins-one)))

-- `v << 8 | b` for a byte `b`.
pub join_byte : (a b : ℕ) → b < 256 → bit_or (a * 256) b ≡ a * 256 + b
join_byte = Joins-double 128 (Joins-double 64 (Joins-double 32 (Joins-double 16 Joins-16)))

-- Whether two functions give the same at each number below a bound.
same_below : (ℕ → ℕ) → (ℕ → ℕ) → ℕ → Bool
same_below f g zero = true
same_below f g (suc n) = if f n == g n then same_below f g n else false

same_below-eq : (f g : ℕ → ℕ) (n : ℕ) → same_below f g n ≡ true → (x : ℕ) → x < n → f x ≡ g x
unfolding same_below
same_below-eq f g zero h x lt = absurd (omega arith)
same_below-eq f g (suc n) h x lt = elim (Bool-cases (f n == g n)) [
  | inr e ↦ absurd (ground arith)
  | inl e ↦ elim (Bool-cases (ltb x n)) [
    | inl l ↦ same_below-eq f g n (ground arith) x (ltb→lt x n l)
    | inr l ↦ subst (λ (y : ℕ). f y ≡ g y) (ground arith) ((==_iff (f n) (g n)).0 e)
  ]
]

-- The six low bits of a byte.
pub low_six : (b : ℕ) → b < 256 → bit_and b 0x3f ≡ b % 64
unfolding same_below
low_six = same_below-eq _ _ 256 refl

-- The length tags of a first byte whose two top bits are clear.
pub tag_two : (b : ℕ) → b < 64 → bit_or b 0x40 ≡ b + 64
unfolding same_below
tag_two = same_below-eq _ _ 64 refl

pub tag_four : (b : ℕ) → b < 64 → bit_or b 0x80 ≡ b + 128
unfolding same_below
tag_four = same_below-eq _ _ 64 refl

pub tag_eight : (b : ℕ) → b < 64 → bit_or b 0xc0 ≡ b + 192
unfolding same_below
tag_eight = same_below-eq _ _ 64 refl

-- ===== src/Base/Int.antt =====
-- Signed integers over the native numbers, under the library's names, and the 64-bit integers of Go:
-- an `int64` is the integer that it stands for, and `wrap64` reduces a result into its range.
use Prim.Native.Nat.{ℕ, suc, ◌+◌, ◌-◌, ◌/◌, ◌%◌, ◌≤◌, ◌<◌}
use mathlib.Core.Path.{◌≡◌, refl}
use mathlib.Core.Bool.{Bool, true, false}
use native.Mathlib.Omega.{arith}
use tor_boxarr.Base.Tests.{ltb, leb, ◌==◌, if◌then◌else◌}

-- `negsuc n` is -(n + 1).
pub data ℤ : Type 0 where
  pos : ℕ → ℤ
  negsuc : ℕ → ℤ

abbrev pub pos_part : ℤ → ℕ
pos_part (pos n) = n
pos_part (negsuc n) = 0

abbrev pub neg_part : ℤ → ℕ
neg_part (pos n) = 0
neg_part (negsuc n) = suc n

abbrev pub sub_ℕ : ℕ → ℕ → ℤ
sub_ℕ a b = if leb b a then pos (a - b) else negsuc (b - a - 1)

infixl 65 ◌+ℤ◌ ◌-ℤ◌
infix 50 ◌≤ℤ◌ ◌<ℤ◌
unfoldable pub ◌+ℤ◌ : ℤ → ℤ → ℤ
a +ℤ b = sub_ℕ (pos_part a + pos_part b) (neg_part a + neg_part b)

unfoldable pub ◌-ℤ◌ : ℤ → ℤ → ℤ
a -ℤ b = sub_ℕ (pos_part a + neg_part b) (neg_part a + pos_part b)

abbrev pub ◌≤ℤ◌ : ℤ → ℤ → Type 0
a ≤ℤ b = pos_part a + neg_part b ≤ pos_part b + neg_part a

abbrev pub ◌<ℤ◌ : ℤ → ℤ → Type 0
a <ℤ b = pos_part a + neg_part b < pos_part b + neg_part a

unfoldable pub ltb_ℤ : ℤ → ℤ → Bool
ltb_ℤ a b = ltb (pos_part a + neg_part b) (pos_part b + neg_part a)

unfoldable pub leb_ℤ : ℤ → ℤ → Bool
leb_ℤ a b = leb (pos_part a + neg_part b) (pos_part b + neg_part a)

unfoldable pub eqb_ℤ : ℤ → ℤ → Bool
eqb_ℤ a b = (pos_part a + neg_part b) == (pos_part b + neg_part a)

unfoldable pub max_ℤ : ℤ → ℤ → ℤ
unfolding ltb_ℤ
max_ℤ a b = if ltb_ℤ a b then b else a

-- Division of Go: towards zero. Only a positive divisor occurs.
unfoldable pub quot_ℤ : ℤ → ℕ → ℤ
quot_ℤ (pos n) d = pos (n / d)
quot_ℤ (negsuc n) d = sub_ℕ 0 (suc n / d)

abbrev pub two_63 : ℕ
two_63 = 9223372036854775808

abbrev pub two_64 : ℕ
two_64 = 18446744073709551616

-- The bits of an integer modulo 2^64, and the int64 that has these bits.
unfoldable pub pattern64 : ℤ → ℕ
pattern64 a = (pos_part a % two_64 + (two_64 - neg_part a % two_64)) % two_64

unfoldable pub wrap64 : ℤ → ℤ
unfolding pattern64
wrap64 a = if ltb (pattern64 a) two_63 then pos (pattern64 a) else negsuc (two_64 - pattern64 a - 1)

-- `+` and `-` on int64.
unfoldable pub add64 : ℤ → ℤ → ℤ
unfolding wrap64 ◌+ℤ◌
add64 a b = wrap64 (a +ℤ b)

unfoldable pub sub64 : ℤ → ℤ → ℤ
unfolding wrap64 ◌-ℤ◌
sub64 a b = wrap64 (a -ℤ b)

pub ltb_ℤ→lt : (a b : ℤ) → ltb_ℤ a b ≡ true → a <ℤ b
unfolding ltb_ℤ
ltb_ℤ→lt a b h = ground arith

pub ltb_ℤ→le : (a b : ℤ) → ltb_ℤ a b ≡ false → b ≤ℤ a
unfolding ltb_ℤ
ltb_ℤ→le a b h = ground arith

pub leb_ℤ→le : (a b : ℤ) → leb_ℤ a b ≡ true → a ≤ℤ b
unfolding leb_ℤ
leb_ℤ→le a b h = ground arith

pub leb_ℤ→lt : (a b : ℤ) → leb_ℤ a b ≡ false → b <ℤ a
unfolding leb_ℤ
leb_ℤ→lt a b h = ground arith

pub eqb_ℤ→eq : (a b : ℤ) → eqb_ℤ a b ≡ true → a ≡ b
unfolding eqb_ℤ
eqb_ℤ→eq a b h = ground arith

pub ruleset int_tests = (arith, ltb_ℤ→lt, ltb_ℤ→le, leb_ℤ→le, leb_ℤ→lt)

-- A sum of counters in range does not wrap.
pub add64_exact : (m n : ℕ) → m + n < two_63 → add64 (pos m) (pos n) ≡ pos (m + n)
unfolding add64
add64_exact m n h = ground arith

add64_wraps : add64 (pos (two_63 - 1)) (pos 1) ≡ negsuc (two_63 - 1)
unfolding add64
add64_wraps = refl

-- Neither does a difference of counters.
pub sub64_exact : (m n : ℕ) → m < two_63 → n < two_63 → sub64 (pos m) (pos n) ≡ sub_ℕ m n
unfolding sub64
sub64_exact m n h k = ground arith

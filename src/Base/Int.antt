-- ===== src/Base/Int.antt =====
-- Signed machine integers, over the library's names: `negsuc n` is -(n + 1).
use Prim.Native.Nat.{ℕ, suc, ◌+◌, ◌-◌, ◌*◌, ◌/◌, ◌%◌, ◌^◌, ◌<◌}
use mathlib.Core.Bool.{Bool, true, false}
use mathlib.Core.Path.{◌≡◌}
use native.Mathlib.Omega.{arith}
use yourfs.Base.Tests.{ltb, leb, ◌==◌, if◌then◌else◌}

pub data ℤ : Type 0 where
  pos : ℕ → ℤ
  negsuc : ℕ → ℤ

-- `-n`, for a constant `n` of the source.
abbrev pub neg : ℕ → ℤ
neg n = if n == 0 then pos 0 else negsuc (n - 1)

abbrev pub is_neg : ℤ → Bool
is_neg (pos n) = false
is_neg (negsuc n) = true

abbrev pub int_eq : ℤ → ℤ → Bool
int_eq (pos a) (pos b) = a == b
int_eq (negsuc a) (negsuc b) = a == b
int_eq (pos a) (negsuc b) = false
int_eq (negsuc a) (pos b) = false

-- `x as i64` for a `u64`, and `x as i32` for a `u32`.
unfoldable pub to_i64 : ℕ → ℤ
to_i64 x = if ltb x (2 ^ 63) then pos x else negsuc (2 ^ 64 - x - 1)

unfoldable pub to_i32 : ℕ → ℤ
to_i32 x = if ltb x (2 ^ 31) then pos x else negsuc (2 ^ 32 - x - 1)

-- `x as u32` for an `i32`.
unfoldable pub to_u32 : ℤ → ℕ
to_u32 (pos n) = n % 2 ^ 32
to_u32 (negsuc n) = (2 ^ 32 - 1) - n % 2 ^ 32

-- `x as u64` for an `i64`.
unfoldable pub to_u64 : ℤ → ℕ
to_u64 (pos n) = n % 2 ^ 64
to_u64 (negsuc n) = (2 ^ 64 - 1) - n % 2 ^ 64

pub to_u32-to_i32 : (x : ℕ) → x < 2 ^ 32 → to_u32 (to_i32 x) ≡ x
unfolding to_u32 to_i32
to_u32-to_i32 x h = ground arith

-- Arithmetic, for sums and products that the width holds.
unfoldable pub sub_nat : ℕ → ℕ → ℤ
sub_nat a b = if ltb a b then negsuc (b - a - 1) else pos (a - b)

infixl 60 ◌+ℤ◌
unfoldable pub ◌+ℤ◌ : ℤ → ℤ → ℤ
pos a +ℤ pos b = pos (a + b)
pos a +ℤ negsuc b = sub_nat a (suc b)
negsuc a +ℤ pos b = sub_nat b (suc a)
negsuc a +ℤ negsuc b = negsuc (a + b + 1)

infixl 60 ◌-ℤ◌
unfoldable pub ◌-ℤ◌ : ℤ → ℤ → ℤ
a -ℤ pos b = a +ℤ neg b
a -ℤ negsuc b = a +ℤ pos (suc b)

-- By a constant, with the remainder's sign that of the dividend.
unfoldable pub times : ℤ → ℕ → ℤ
times (pos a) k = pos (a * k)
times (negsuc a) k = neg (suc a * k)

unfoldable pub quot : ℤ → ℕ → ℤ
quot (pos a) k = pos (a / k)
quot (negsuc a) k = neg (suc a / k)

unfoldable pub rem : ℤ → ℕ → ℤ
rem (pos a) k = pos (a % k)
rem (negsuc a) k = neg (suc a % k)

unfoldable pub le : ℤ → ℤ → Bool
le (pos a) (pos b) = leb a b
le (pos a) (negsuc b) = false
le (negsuc a) (pos b) = true
le (negsuc a) (negsuc b) = leb b a
